-- ===== src/Signing/Signable.antt =====
-- What the four classes with a private `#sign` share: proposals, transactions, commits and
-- chaincode events requests. `sign_if_unsigned` is the body that each of them repeats.
use fabric_gateway.Base.{◌≡◌, Bool, true, false, ◌∷◌, Bytes, length, ltb, if◌then◌else◌}
use fabric_gateway.Effect.{ok, err, ◌>>=◌, pure, gets, modify, on_history}
use fabric_gateway.Errors.{Thrown, Event, History, Method}
use fabric_gateway.Signing.{SigningIdentity, sign, hash}

-- The parts of such a class, over the bytes that are to be signed.
pub record Signable (T : Type 0) : Type 0 where
  pub signing_identity : T → SigningIdentity
  pub message : T → Bytes
  pub signature : T → Bytes
  pub is_signed : T → Bool
  pub set_signature : Bytes → T → T

-- What the class has to satisfy.
pub record IsSignable {T : Type 0} (o : Signable T) : Type 0 where
  pub signature-set_signature : (b : Bytes) (t : T) → o.signature (o.set_signature b t) ≡ b
  pub message-set_signature : (b : Bytes) (t : T) → o.message (o.set_signature b t) ≡ o.message t
  pub identity-set_signature :
      (b : Bytes) (t : T) → o.signing_identity (o.set_signature b t) ≡ o.signing_identity t
  pub is_signed-eq-ltb : (t : T) → o.is_signed t ≡ ltb 0 (length (o.signature t))

module _ {T : Type 0} (o : Signable T) where
  -- `getDigest`
  unfoldable pub get_digest : T → Bytes
  unfolding hash
  get_digest t = hash (o.signing_identity t) (o.message t)

  abbrev sign_now : T → Method T (Unit {0})
  sign_now t = do
    signature ← on_history (sign (o.signing_identity t) (get_digest t))
    modify (λ s. (o.set_signature signature s.0, s.1))

  -- `#sign`
  unfoldable pub sign_if_unsigned : Method T (Unit {0})
  unfolding sign
  sign_if_unsigned = do t ← gets (λ s. s.0); if o.is_signed t then pure tt else sign_now t

  -- An object that is signed already is left alone, and no signer is called.
  pub sign_if_unsigned-signed :
      (t : T) (h : History) → o.is_signed t ≡ true → sign_if_unsigned (t, h) ≡ (ok tt, (t, h))
  unfolding sign_if_unsigned
  sign_if_unsigned-signed t h e = rw e

  -- An unsigned one takes what the signer answers to its digest.
  pub sign_if_unsigned-ok :
      (t : T) (h : History) (b : Bytes)
      → o.is_signed t ≡ false
      → (o.signing_identity t).signer h (get_digest t) ≡ ok b
      → sign_if_unsigned (t, h) ≡ (ok tt, (o.set_signature b t, Event.sign (get_digest t) ∷ h))
  unfolding sign_if_unsigned
  sign_if_unsigned-ok t h b e s = rw (e, s)

  -- If the signer throws, so does the method, and the object is as before.
  pub sign_if_unsigned-err :
      (t : T) (h : History) (x : Thrown)
      → o.is_signed t ≡ false
      → (o.signing_identity t).signer h (get_digest t) ≡ err x
      → sign_if_unsigned (t, h) ≡ (err x, (t, Event.sign (get_digest t) ∷ h))
  unfolding sign_if_unsigned
  sign_if_unsigned-err t h x e s = rw (e, s)
