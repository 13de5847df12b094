-- ===== src/Effect/Keeps.antt =====
-- Properties of an object that a method keeps, however it ends.
use fabric_gateway.Base.{Bytes, Bool-cases, inl, inr}
use fabric_gateway.Effect.{Result, ok, err, Step, continue_with, ◌>>=◌, on_history, Result-cases}
use fabric_gateway.Errors.{History, Thrown, Method}
use fabric_gateway.Signing.Signable.{
  Signable, get_digest, sign_if_unsigned, sign_if_unsigned-signed, sign_if_unsigned-ok,
  sign_if_unsigned-err,
}

module _ {T : Type 0} (P : T → Type 0) where
  pub record Keeps {A : Type 0} (m : Method T A) : Type 0 where
    pub at : (t : T) (h : History) → P t → P (m (t, h)).1.0

module _ {T : Type 0} {P : T → Type 0} where
  keeps_after :
      {A B : Type 0} (f : A → Method T B) (x : Result Thrown A × (T × History))
      → P x.1.0
      → ((a : A) → Keeps P (f a))
      → P (continue_with f x).1.0
  keeps_after f (ok a, s) p k = (k a).at s.0 s.1 p
  keeps_after f (err e, s) p k = p

  pub Keeps->>= :
      {A B : Type 0} {m : Method T A} {f : A → Method T B}
      → Keeps P m
      → ((a : A) → Keeps P (f a))
      → Keeps P (m >>= f)
  Keeps->>= {m} {f} km kf = record { at = λ t h p. keeps_after f (m (t, h)) (km.at t h p) kf }

  pub Keeps-gets : {A : Type 0} (g : T × History → A) → Keeps P (λ s. (ok (g s), s))
  Keeps-gets g = record { at = λ t h p. p }

  pub Keeps-of_result : {A : Type 0} (r : Result Thrown A) → Keeps P (λ s. (r, s))
  Keeps-of_result r = record { at = λ t h p. p }

  pub Keeps-on_history : {A : Type 0} (m : Step Thrown History A) → Keeps P (on_history {T = T} m)
  Keeps-on_history m = record { at = λ t h p. p }

  -- Signing keeps what a new signature keeps.
  pub Keeps-sign_if_unsigned :
      (o : Signable T)
      → ((b : Bytes) (t : T) → P t → P (o.set_signature b t))
      → Keeps P (sign_if_unsigned o)
  Keeps-sign_if_unsigned o k = record {
    at = λ t h p. elim (Bool-cases (o.is_signed t)) [
      | inl e ↦ rw (sign_if_unsigned-signed o t h e) p
      | inr e ↦ elim (Result-cases ((o.signing_identity t).signer h (get_digest o t))) [
        | inl (b, s) ↦ rw (sign_if_unsigned-ok o t h b e s) (k b t p)
        | inr (x, s) ↦ rw (sign_if_unsigned-err o t h x e s) p
      ]
    ];
  }
