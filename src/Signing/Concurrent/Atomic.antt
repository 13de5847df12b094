-- ===== src/Signing/Concurrent/Atomic.antt =====
-- `#sign` as the one step that the models of the single calls take it for.
use fabric_gateway.Base.{ℕ, refl, List, ◌∷◌, ◌++◌, inl, inr, Bool-cases}
use fabric_gateway.Effect.{Result, ok, err, Result-cases}
use fabric_gateway.Errors.{Thrown, History}
use fabric_gateway.Signing.Signable.{Signable, get_digest, sign_if_unsigned}
use fabric_gateway.Signing.Concurrent.{
  Phase, starting, ready, failed, finds_signature, calls_signer, stores, rejects, moves, Reach,
  here, later,
}

-- Where `#sign` has brought a call that was starting.
abbrev pub after_sign : Result Thrown (Unit {0}) → Phase
after_sign (ok _) = ready
after_sign (err x) = failed x

module _ {T : Type 0} (o : Signable T) where
  -- Whatever the signer answers, what `#sign` does as one step is a schedule of the concurrent calls,
  -- in which no other call moves.
  pub sign_if_unsigned-Reach :
      (t : T) (h : History) (before after : List Phase)
      → let done = sign_if_unsigned o (t, h) in
        (k : ℕ) × Reach o
          (record { object = t; history = h; calls = before ++ starting ∷ after })
          k
          (record {
            object = done.1.0;
            history = done.1.1;
            calls = before ++ after_sign done.0 ∷ after;
          })
  unfolding sign_if_unsigned
  sign_if_unsigned-Reach t h before after = elim (Bool-cases (o.is_signed t)) [
    | inl e ↦ rw e (1, later here (moves before after refl (finds_signature e)))
    | inr e ↦ elim (Result-cases ((o.signing_identity t).signer h (get_digest o t))) [
      | inl (b, answered) ↦ rw e (
          rw answered (
            2,
            later (later here (moves before after refl (calls_signer e)))
                (moves before after refl (rw answered stores)),
          ))
      | inr (x, answered) ↦ rw e (
          rw answered (
            2,
            later (later here (moves before after refl (calls_signer e)))
                (moves before after refl (rw answered rejects)),
          ))
    ]
  ]
