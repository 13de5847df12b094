-- ===== src/Signing/Calls.antt =====
-- The calls of the gateway service during the `#sign` of a class.
use fabric_gateway.Base.{[], Bool-cases, inl, inr}
use fabric_gateway.Effect.{Result, ok, err, Result-cases}
use fabric_gateway.Effect.Made.{method_calls, Made, Makes, Made-none}
use fabric_gateway.Errors.{Thrown, History}
use fabric_gateway.Signing.Signable.{
  Signable, get_digest, sign_if_unsigned, sign_if_unsigned-signed, sign_if_unsigned-ok,
  sign_if_unsigned-err,
}

module _ {T : Type 0} (o : Signable T) where
  Made-nothing :
      (t : T) (h : History) (r : Result Thrown (Unit {0})) → Made method_calls [] (t, h) (r, (t, h))
  Made-nothing t h r = Made-none method_calls (t, h) r

  sign_if_unsigned-Made :
      (t : T) (h : History) → Made method_calls [] (t, h) (sign_if_unsigned o (t, h))
  sign_if_unsigned-Made t h = elim (Bool-cases (o.is_signed t)) [
    | inl e ↦ rw (sign_if_unsigned-signed o t h e) (Made-nothing t h (ok tt))
    | inr e ↦ elim (Result-cases ((o.signing_identity t).signer h (get_digest o t))) [
      | inl (b, s) ↦
          rw (sign_if_unsigned-ok o t h b e s) (Made-nothing (o.set_signature b t) h (ok tt))
      | inr (x, s) ↦ rw (sign_if_unsigned-err o t h x e s) (Made-nothing t h (err x))
    ]
  ]

  pub sign_if_unsigned-Makes : Makes method_calls [] (sign_if_unsigned o)
  sign_if_unsigned-Makes = record { at = λ s. sign_if_unsigned-Made s.0 s.1 }
