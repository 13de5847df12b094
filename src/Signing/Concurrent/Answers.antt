-- ===== src/Signing/Concurrent/Answers.antt =====
-- Which signatures the requests of concurrent calls carry.
use fabric_gateway.Base.{
  ℕ, zero, suc, repeat, ◌≡◌, refl, sym, ap, ◌∙◌, ◌⊎◌, inl, inr, true, List, [], ◌∷◌, ltb-lt, arith,
  ◌++◌, Bytes, All, All-pick, All-replace, subst, ap₂, length, ltb,
}
use fabric_gateway.Effect.{Result, ok}
use fabric_gateway.Errors.{Thrown, History}
use fabric_gateway.Signing.{SigningIdentity, hash}
use fabric_gateway.Signing.Signable.{Signable, IsSignable, get_digest}
use fabric_gateway.Signing.Concurrent.{
  Phase, starting, waiting, ready, sent, failed, Move, finds_signature, calls_signer, stores,
  rejects, sends, System, Step, moves, elsewhere, Reach, here, later, begin,
}

module _ {T : Type 0} (o : Signable T) (first : T) where
  -- The signer of the object has once answered so to the digest of the object.
  abbrev pub Answers : Result Thrown Bytes → Type 0
  Answers r = (h : History) × ((o.signing_identity first).signer h (get_digest o first) ≡ r)

  -- The object's own signature, if it has one from the beginning, or an answer of the signer.
  abbrev pub IsSignature : Bytes → Type 0
  IsSignature b = ((o.signature first ≡ b) × (o.is_signed first ≡ true)) ⊎ Answers (ok b)

  -- What each call has got.
  abbrev Got : T → Phase → Type 0
  Got t starting = Unit
  Got t (waiting r) = Answers r
  Got t ready = IsSignature (o.signature t)
  Got t (sent b) = IsSignature b
  Got t (failed x) = Unit

  record Inv (t : T) : Type 0 where
    same_identity : o.signing_identity t ≡ o.signing_identity first
    same_message : o.message t ≡ o.message first
    own : (o.signature t ≡ o.signature first) ⊎ IsSignature (o.signature t)

  Inv-digest : (t : T) → Inv t → get_digest o t ≡ get_digest o first
  unfolding get_digest hash
  Inv-digest t inv =
      ap (λ (i : SigningIdentity). i.hash (o.message t)) inv.same_identity
      ∙ ap (o.signing_identity first).hash inv.same_message

  Inv-first : Inv first
  Inv-first = record { same_identity = refl; same_message = refl; own = inl refl }

  -- A call has moved: the invariant, what the call has got, and that no other call has lost anything.
  abbrev Moved : T → Phase → Type 0
  Moved t q = Inv t × Got t q

  module _ (laws : IsSignable o) where
    IsSignature-own : (t : T) → Inv t → o.is_signed t ≡ true → IsSignature (o.signature t)
    IsSignature-own t inv signed = elim inv.own [
      | inl same ↦ inl (
        sym same,
        laws.is_signed-eq-ltb first
            ∙ (ap (λ b. ltb 0 (length b)) (sym same) ∙ (sym (laws.is_signed-eq-ltb t) ∙ signed)),
      )
      | inr known ↦ known
    ]

    IsSignature-set_signature :
        (t : T) (b : Bytes) → Answers (ok b) → IsSignature (o.signature (o.set_signature b t))
    IsSignature-set_signature t b answered =
        subst IsSignature (sym (laws.signature-set_signature b t)) (inr answered)

    Inv-set_signature : (t : T) (b : Bytes) → Inv t → Answers (ok b) → Inv (o.set_signature b t)
    Inv-set_signature t b inv answered = record {
      same_identity = laws.identity-set_signature b t ∙ inv.same_identity;
      same_message = laws.message-set_signature b t ∙ inv.same_message;
      own = inr (IsSignature-set_signature t b answered);
    }

    Got-set_signature :
        (t : T) (b : Bytes) (r : Phase) → Answers (ok b) → Got t r → Got (o.set_signature b t) r
    Got-set_signature t b starting answered g = tt
    Got-set_signature t b (waiting r) answered g = g
    Got-set_signature t b ready answered g = IsSignature-set_signature t b answered
    Got-set_signature t b (sent c) answered g = g
    Got-set_signature t b (failed x) answered g = tt

    Move-Inv :
        {t u : T} {h k : History} {p q : Phase} → Move o t h p u k q → Inv t → Got t p → Inv u
    Move-Inv (finds_signature e) inv g = inv
    Move-Inv (calls_signer e) inv g = inv
    Move-Inv {t} (stores {b}) inv g = Inv-set_signature t b inv g
    Move-Inv rejects inv g = inv
    Move-Inv sends inv g = inv

    Move-Got :
        {t u : T} {h k : History} {p q : Phase} → Move o t h p u k q → Inv t → Got t p → Got u q
    Move-Got {t} (finds_signature e) inv g = IsSignature-own t inv e
    Move-Got {t} {h} (calls_signer e) inv g = (
      h,
      ap₂ (λ (i : SigningIdentity) d. i.signer h d) (sym inv.same_identity)
          (sym (Inv-digest t inv)),
    )
    Move-Got {t} (stores {b}) inv g = IsSignature-set_signature t b g
    Move-Got rejects inv g = tt
    Move-Got sends inv g = g

    Move-others :
        {t u : T} {h k : History} {p q : Phase}
        → Move o t h p u k q
        → Got t p
        → (r : Phase) → Got t r
        → Got u r
    Move-others (finds_signature e) g r k = k
    Move-others (calls_signer e) g r k = k
    Move-others {t} (stores {b}) g r k = Got-set_signature t b r g k
    Move-others rejects g r k = k
    Move-others sends g r k = k

    abbrev Holds : System o → Type 0
    Holds s = Inv s.object × All (Got s.object) s.calls

    Step-Holds : {s u : System o} {m : ℕ} → Step o s m u → Holds s → Holds u
    Step-Holds {s} (moves before after {p} {q} {t} {h} e m) (inv, got) =
        let split = subst (All (Got s.object)) e got in
        let g = All-pick (Got s.object) before p after split in
        (
          Move-Inv m inv g,
          All-replace (Got s.object) (Got t) before p q after (Move-others m g) (Move-Got m inv g)
              split,
        )
    Step-Holds (elsewhere e) holds = holds

    Reach-Holds : {s u : System o} {k : ℕ} → Reach o s k u → Holds s → Holds u
    Reach-Holds here holds = holds
    Reach-Holds (later r st) holds = Step-Holds st (Reach-Holds r holds)

starting-Got :
    {T : Type 0} (o : Signable T) (first : T) (n : ℕ) → All (Got o first first) (repeat n starting)
starting-Got o first zero = tt
starting-Got o first (suc n) = (tt, starting-Got o first n)

bytes_or_empty : (b : Bytes) → (ltb 0 (length b) ≡ true) ⊎ (b ≡ [])
bytes_or_empty [] = inr refl
bytes_or_empty (x ∷ b) = inl (ltb-lt 0 (length (x ∷ b)) (omega arith))

-- Whatever the schedule of calls on an object, a request that is sent carries the signature that the
-- object had from the beginning, or one that the signer gave to its digest; the request is signed,
-- unless the signer has answered that digest with an empty signature; and the bytes to be signed stay as
-- they were.
pub sent-IsSignature :
    {T : Type 0} (o : Signable T) (laws : IsSignable o) (first : T) (h : History) (n k : ℕ)
    (u : System o) (before after : List Phase) (b : Bytes)
    → Reach o (begin o first h n) k u
    → u.calls ≡ before ++ sent b ∷ after
    → IsSignature o first b
      × ((ltb 0 (length b) ≡ true) ⊎ Answers o first (ok []))
      × (o.message u.object ≡ o.message first)
sent-IsSignature o laws first h n k u before after b r e =
    let (inv, got) = Reach-Holds o first laws r (Inv-first o first, starting-Got o first n) in
    let known : IsSignature o first b =
      All-pick (Got o first u.object) before (sent b) after
        (subst (All (Got o first u.object)) e got) in
    (
      known,
      elim known [
        | inl (own, signed) ↦
            inl
              (ap (λ c. ltb 0 (length c)) (sym own) ∙ (sym (laws.is_signed-eq-ltb first) ∙ signed))
        | inr answered ↦ elim (bytes_or_empty b) [
          | inl long ↦ inl long
          | inr empty ↦ inr (subst (λ c. Answers o first (ok c)) empty answered)
        ]
      ],
      inv.same_message,
    )
