-- ===== src/Signing/Once.antt =====
-- Signing on demand twice, for any class with a `#sign` (node/src/proposal.ts and the like).
use fabric_gateway.Base.{◌≡◌, ◌∙◌, ap, true, false, ◌∷◌, Bytes, length, ltb}
use fabric_gateway.Effect.{ok, ◌>>◌}
use fabric_gateway.Errors.{Event, History}
use fabric_gateway.Signing.Signable.{
  Signable, IsSignable, get_digest, sign_if_unsigned, sign_if_unsigned-ok, sign_if_unsigned-signed,
}

module _ {T : Type 0} (o : Signable T) (laws : IsSignable o) where
  is_signed-set_signature :
      (t : T) (b : Bytes) → ltb 0 (length b) ≡ true → o.is_signed (o.set_signature b t) ≡ true
  is_signed-set_signature t b e =
      laws.is_signed-eq-ltb (o.set_signature b t)
      ∙ (ap (λ s. ltb 0 (length s)) (laws.signature-set_signature b t) ∙ e)

  -- Where the signer answers an unsigned object's digest with a signature that is not empty, signing
  -- on demand twice calls the signer once, leaves the bytes to be signed as they were, and keeps that
  -- signature.
  pub sign_if_unsigned-twice :
      (t : T) (h : History) (b : Bytes)
      → o.is_signed t ≡ false
      → (o.signing_identity t).signer h (get_digest o t) ≡ ok b
      → ltb 0 (length b) ≡ true
      → ((sign_if_unsigned o >> sign_if_unsigned o) (t, h)
          ≡ (ok tt, (o.set_signature b t, Event.sign (get_digest o t) ∷ h)))
        × (o.message (o.set_signature b t) ≡ o.message t)
        × (o.signature (o.set_signature b t) ≡ b)
  sign_if_unsigned-twice t h b unsigned signed e = (
    rw (sign_if_unsigned-ok o t h b unsigned signed) (
        sign_if_unsigned-signed o (o.set_signature b t) (Event.sign (get_digest o t) ∷ h)
          (is_signed-set_signature t b e)),
    laws.message-set_signature b t,
    laws.signature-set_signature b t,
  )
