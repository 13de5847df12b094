-- ===== src/Tests/Laws.antt =====
-- The theorems about error details, signing once and transaction identifiers, at concrete inputs.
use fabric_gateway.Base.{◌++◌, All, ◌≡◌, refl, [], ◌∷◌, Bytes, arith}
use fabric_gateway.Js.{JsValue}
use fabric_gateway.Effect.{ok, ◌>>◌}
use fabric_gateway.Errors.{CallOptions, Event}
use fabric_gateway.GatewayErrors.{new_gateway_error}
use fabric_gateway.GatewayErrors.Details.{new_gateway_error-status_of}
use fabric_gateway.Signing.Signable.{get_digest, sign_if_unsigned}
use fabric_gateway.Signing.Once.{sign_if_unsigned-twice}
use fabric_gateway.Proposal.{proposal_signable, set_signature}
use fabric_gateway.Proposal.Sharing.{proposal_signable-IsSignable}
use fabric_gateway.Js.Buffer.{IsByte}
use fabric_gateway.TransactionContext.{context_of}
use fabric_gateway.TransactionContext.Unique.{context_of-nonce}
use fabric_gateway.Tests.Wires.{protos}
use fabric_gateway.Tests.Parsing.{protos-RoundTrips}
use fabric_gateway.Tests.Run.{run}
use fabric_gateway.Tests.World.{identity, rejection, metadata, detail}
use fabric_gateway.Tests.Objects.{unsigned_proposal}

abbrev options : CallOptions
options = ("deadline", JsValue.number 5) ∷ []

new_gateway_error-status_of_example :
    new_gateway_error protos rejection
    ≡ ok (record {
      message = "10 ABORTED";
      code = JsValue.number 10;
      details = detail ∷ [];
      cause = rejection;
    })
unfolding run
new_gateway_error-status_of_example =
    new_gateway_error-status_of protos protos-RoundTrips rejection metadata ((detail ∷ []) ∷ [])
      refl refl

abbrev digest : Bytes
digest = get_digest proposal_signable unsigned_proposal

sign_if_unsigned-twice_example :
    ((sign_if_unsigned proposal_signable >> sign_if_unsigned proposal_signable)
        (unsigned_proposal, [])
      ≡ (ok tt, (set_signature (77 ∷ digest) unsigned_proposal, Event.sign digest ∷ [])))
    × ((set_signature (77 ∷ digest) unsigned_proposal).proposal.proposal_bytes
        ≡ unsigned_proposal.proposal.proposal_bytes)
    × ((set_signature (77 ∷ digest) unsigned_proposal).proposal.signature ≡ 77 ∷ digest)
unfolding run
sign_if_unsigned-twice_example =
    sign_if_unsigned-twice proposal_signable proposal_signable-IsSignable unsigned_proposal []
      (77 ∷ digest) refl refl refl

abbrev nonce : Bytes
nonce = 1 ∷ 2 ∷ []

hash-IsByte : All IsByte (identity.hash (nonce ++ identity.creator))
hash-IsByte = (omega arith, (omega arith, (omega arith, (omega arith, (omega arith, tt)))))

context_of-nonce_example :
    (context_of identity nonce).signature_header.nonce
    ≡ (context_of identity (1 ∷ 2 ∷ [])).signature_header.nonce
context_of-nonce_example =
    context_of-nonce identity nonce (1 ∷ 2 ∷ []) hash-IsByte hash-IsByte (λ e. refl) refl
