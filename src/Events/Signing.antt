-- ===== src/Events/Signing.antt =====
-- node/src/chaincodeeventsrequest.ts: the class as an instance of the signable interface.
use fabric_gateway.Base.{refl}
use fabric_gateway.Signing.Signable.{IsSignable}
use fabric_gateway.Events.Request.{request_signable, set_signature, is_signed}

pub request_signable-IsSignable : IsSignable request_signable
unfolding set_signature is_signed
request_signable-IsSignable = record {
  signature-set_signature = λ b s. refl;
  message-set_signature = λ b s. refl;
  identity-set_signature = λ b s. refl;
  is_signed-eq-ltb = λ s. refl;
}
