-- ===== src/Commit/Signing.antt =====
-- node/src/commit.ts: the class as an instance of the signable interface.
use fabric_gateway.Base.{refl}
use fabric_gateway.Signing.Signable.{IsSignable}
use fabric_gateway.Commit.{commit_signable, set_signature, is_signed}

pub commit_signable-IsSignable : IsSignable commit_signable
unfolding set_signature is_signed
commit_signable-IsSignable = record {
  signature-set_signature = λ b s. refl;
  message-set_signature = λ b s. refl;
  identity-set_signature = λ b s. refl;
  is_signed-eq-ltb = λ s. refl;
}
