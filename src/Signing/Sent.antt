-- ===== src/Signing/Sent.antt =====
-- What the methods that start with `await this.#sign()` ask of the signer and of the service, on every
-- branch (node/src/proposal.ts, transaction.ts, commit.ts and chaincodeeventsrequest.ts).
use fabric_gateway.Base.{
  ◌≡◌, refl, sym, ap, ◌∙◌, ◌⊎◌, inl, inr, Bool-cases, true, false, ◌∷◌, Bytes, length, ltb,
}
use fabric_gateway.Effect.{
  Result, ok, err, Result-cases, continue_with, of_result, ◌>>=◌, ◌>>◌, on_history,
}
use fabric_gateway.Errors.{Thrown, CallOptions, Event, History, M, Method}
use fabric_gateway.Signing.{Signer}
use fabric_gateway.Signing.Signable.{
  Signable, IsSignable, get_digest, sign_if_unsigned, sign_if_unsigned-signed, sign_if_unsigned-ok,
  sign_if_unsigned-err,
}

-- A call throws and asks nothing, or makes one request.
abbrev pub Asks :
    {A : Type 0} → (CallOptions → Event) → History → Result Thrown A × History → Type 0
Asks request h (r, h') =
    ((x : Thrown) × (r ≡ err x) × (h' ≡ h)) ⊎ ((built : CallOptions) × (h' ≡ request built ∷ h))

-- How a method ends on an object with this signature, signer and digest at the beginning, which
-- requests something for a signature.
pub data Sends {T A : Type 0} (signature_of : T → Bytes) (own : Bytes) (signer : Signer)
    (digest : Bytes) (request : Bytes → CallOptions → Event) (h : History)
    (y : Result Thrown A × (T × History)) : Type 0 where
  -- The object has a signature: no signer is called, and the request carries that signature.
  as_it_was :
      ltb 0 (length own) ≡ true
      → signature_of y.1.0 ≡ own
      → Asks (request own) h (y.0, y.1.1)
      → Sends signature_of own signer digest request h y
  -- It has none: the signer is called once, and the object and the request have its answer.
  signed :
      (b : Bytes)
      → ltb 0 (length own) ≡ false
      → signer h digest ≡ ok b
      → signature_of y.1.0 ≡ b
      → Asks (request b) (Event.sign digest ∷ h) (y.0, y.1.1)
      → Sends signature_of own signer digest request h y
  -- The signer throws: so does the method, and nothing is requested.
  not_signed :
      (x : Thrown)
      → ltb 0 (length own) ≡ false
      → signer h digest ≡ err x
      → signature_of y.1.0 ≡ own
      → y.0 ≡ err x
      → y.1.1 ≡ Event.sign digest ∷ h
      → Sends signature_of own signer digest request h y

-- What follows a request and asks nothing more.
Asks-then :
    {T A B : Type 0} (request : CallOptions → Event) (h : History) (t : T) (f : A → Method T B)
    (x : Result Thrown A × History)
    → ((a : A) (s : T × History) → (f a s).1 ≡ s)
    → Asks request h x
    → let y = continue_with f (x.0, (t, x.1)) in (y.1.0 ≡ t) × Asks request h (y.0, y.1.1)
Asks-then request h t f (ok a, h') quiet (inl (x, e, k)) = cc
Asks-then request h t f (ok a, h') quiet (inr (built, e)) =
    (ap (λ s. s.0) (quiet a (t, h')), inr (built, ap (λ s. s.1) (quiet a (t, h')) ∙ e))
Asks-then request h t f (err x, h') quiet (inl (z, e, k)) = (refl, inl (x, refl, k))
Asks-then request h t f (err x, h') quiet (inr (built, e)) = (refl, inr (built, e))

pub of_result-quiet :
    {E S A B : Type 0} (r : Result E A) (f : A → S → Result E B × S) (s : S)
    → ((a : A) (s : S) → (f a s).1 ≡ s)
    → (continue_with f (of_result r s)).1 ≡ s
of_result-quiet (ok a) f s quiet = quiet a s
of_result-quiet (err e) f s quiet = refl

module _ {T : Type 0} (o : Signable T) (laws : IsSignable o) where
  -- A method that signs, and then makes one call and nothing more.
  pub sign_if_unsigned-Sends :
      {A B : Type 0} (call : T → M A) (rest : T → A → Method T B)
      (request : Bytes → CallOptions → Event) (t : T) (h : History)
      → ((u : T) (a : A) (s : T × History) → (rest u a s).1 ≡ s)
      → ((h' : History) → Asks (request (o.signature t)) h' (call t h'))
      → ((b : Bytes) (h' : History) → Asks (request b) h' (call (o.set_signature b t) h'))
      → Sends o.signature
          (o.signature t)
          ((o.signing_identity t).signer)
          (get_digest o t)
          request
          h
          ((sign_if_unsigned o >> (λ s. (on_history (call s.0) >>= rest s.0) s)) (t, h))
  sign_if_unsigned-Sends call rest request t h quiet own other = elim (Bool-cases (o.is_signed t)) [
    | inl e ↦
        let (same, asks) =
          Asks-then (request (o.signature t)) h t (rest t) (call t h) (quiet t) (own h) in
        rw (sign_if_unsigned-signed o t h e)
          (as_it_was (sym (laws.is_signed-eq-ltb t) ∙ e) (ap o.signature same) asks)
    | inr e ↦ elim (Result-cases ((o.signing_identity t).signer h (get_digest o t))) [
      | inl (b, answer) ↦
          let u = o.set_signature b t in
          let (same, asks) =
            Asks-then (request b) (Event.sign (get_digest o t) ∷ h) u (rest u)
              (call u (Event.sign (get_digest o t) ∷ h)) (quiet u)
              (other b (Event.sign (get_digest o t) ∷ h)) in
          rw (sign_if_unsigned-ok o t h b e answer) (
            signed b (sym (laws.is_signed-eq-ltb t) ∙ e) answer
              (ap o.signature same ∙ laws.signature-set_signature b t) asks)
      | inr (x, answer) ↦
          rw (sign_if_unsigned-err o t h x e answer)
            (not_signed x (sym (laws.is_signed-eq-ltb t) ∙ e) answer refl refl refl)
    ]
  ]
