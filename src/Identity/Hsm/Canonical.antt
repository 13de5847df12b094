-- ===== src/Identity/Hsm/Canonical.antt =====
-- node/src/identity/hsmsigner.ts: the form of the signatures that a signer gives.
use fabric_gateway.Base.{
  ℕ, ◌≡◌, refl, ◌+◌, ◌-◌, ◌/◌, ◌≤◌, ◌⊎◌, inl, inr, ◌∷◌, Bytes, ltb, arith, Bool-cases, ap,
}
use fabric_gateway.Js.Number.{pos}
use fabric_gateway.Effect.{ok}
use fabric_gateway.Identity.Pkcs11.{Calls, Pkcs11, sign_init, sign}
use fabric_gateway.Identity.Hsm.{HsmSigner, halves, number_of, canonical, sign_digest}

-- `s`, or its complement to the order.
canonical-low :
    (order s : ℕ)
    → s ≤ order
    → (k : ℕ) × ((canonical order s ≡ pos k) × ((k ≤ order / 2) × ((k ≡ s) ⊎ (k + s ≡ order))))
unfolding canonical
canonical-low order s p = elim (Bool-cases (ltb (order / 2) s)) [
  | inl e ↦ (order - s, (ground arith, (ground arith, inr (omega (arith, p)))))
  | inr e ↦ (s, (ground arith, (ground arith, inl refl)))
]

-- Where the library signs, the signer asks it once to set up the key and once to sign the digest,
-- and encodes the first number of its answer with the second one or with the second one's complement
-- to the order, whichever is at most half the order.
pub sign_digest-low :
    (p : Pkcs11) (signer : HsmSigner) (digest sig : Bytes) (h : Calls)
    → p.sign_init h signer.session signer.private_key_handle ≡ ok tt
    → p.sign (sign_init signer.session signer.private_key_handle ∷ h) signer.session digest ≡ ok sig
    → number_of 0 (halves sig).1 ≤ p.order
    → (k : ℕ) × ((sign_digest p signer digest h ≡ (
      ok (p.ec_raw_signature_as_der (pos (number_of 0 (halves sig).0)) (pos k)),
      sign signer.session digest ∷ sign_init signer.session signer.private_key_handle ∷ h,
    ))
        × ((k ≤ p.order / 2)
            × ((k ≡ number_of 0 (halves sig).1) ⊎ (k + number_of 0 (halves sig).1 ≡ p.order))))
unfolding sign_digest
sign_digest-low p signer digest sig h initialised signed bounded =
    let (k, (low, rest)) = canonical-low p.order (number_of 0 (halves sig).1) bounded in
    let history : Calls =
      sign signer.session digest ∷ sign_init signer.session signer.private_key_handle ∷ h in
    let r = pos (number_of 0 (halves sig).0) in
    (
      k,
      (
        rw (initialised, signed) (ap (λ c. (ok (p.ec_raw_signature_as_der r c), history)) low),
        rest,
      ),
    )
