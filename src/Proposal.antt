-- ===== src/Proposal.antt =====
-- node/src/proposal.ts: a transaction proposal. The signed proposal that the object holds is the
-- one inside its proposed transaction; `set_signature` writes through both.
pub mod Sending
pub mod Sharing
use fabric_gateway.Base.{String, Option, none, some, [], Bytes, Bool, length, ltb, ◌≡◌}
use fabric_gateway.Effect.{
  Result, ok, then_result, map_err, of_result, ◌>>=◌, ◌>>◌, pure, gets, on_history,
}
use fabric_gateway.Errors.{CallOptions, JsError, Thrown, Method, assert_defined}
use fabric_gateway.Platform.{Platform}
use fabric_gateway.Protos.{Protos}
use fabric_gateway.Protos.Peer.{Envelope, SignedProposal}
use fabric_gateway.Protos.Gateway.{
  ProposedTransaction, EvaluateRequest, EvaluateResponse, EndorseRequest, PreparedTransaction,
}
use fabric_gateway.Signing.{SigningIdentity}
use fabric_gateway.Signing.Signable.{Signable, sign_if_unsigned}
use fabric_gateway.Client.{GatewayClient}
use fabric_gateway.Client
use fabric_gateway.Transaction.{TransactionImpl, new_transaction_impl}

-- `ProposalImpl`; the client is a parameter of the methods.
pub record ProposalImpl : Type 0 where
  pub signing_identity : SigningIdentity
  pub channel_name : String
  pub proposed_transaction : ProposedTransaction
  pub proposal : SignedProposal

-- The two references are to one signed proposal.
abbrev pub IsShared : ProposalImpl → Type 0
IsShared p = p.proposed_transaction.proposal ≡ some p.proposal

-- The constructor.
unfoldable pub new_proposal_impl :
    SigningIdentity → String → ProposedTransaction → Result JsError ProposalImpl
unfolding assert_defined
new_proposal_impl identity channel_name proposed =
    then_result (assert_defined proposed.proposal "Missing signed proposal") λ proposal.
      ok (record {
        signing_identity = identity;
        channel_name = channel_name;
        proposed_transaction = proposed;
        proposal = proposal;
      })

unfoldable pub set_signature : Bytes → ProposalImpl → ProposalImpl
set_signature b p =
    let proposal = record (p.proposal) { signature = b } in
    record p {
      proposed_transaction = record (p.proposed_transaction) { proposal = some proposal };
      proposal = proposal;
    }

unfoldable pub is_signed : ProposalImpl → Bool
is_signed p = ltb 0 (length p.proposal.signature)

abbrev pub proposal_signable : Signable ProposalImpl
proposal_signable = record {
  signing_identity = λ p. p.signing_identity;
  message = λ p. p.proposal.proposal_bytes;
  signature = λ p. p.proposal.signature;
  is_signed = is_signed;
  set_signature = set_signature;
}

unfoldable pub get_transaction_id : ProposalImpl → String
get_transaction_id p = p.proposed_transaction.transaction_id

unfoldable pub get_bytes : Protos → ProposalImpl → Bytes
get_bytes pb p = pb.proposed_transaction.serialize_binary p.proposed_transaction

unfoldable pub new_evaluate_request : ProposalImpl → EvaluateRequest
new_evaluate_request p = record {
  transaction_id = p.proposed_transaction.transaction_id;
  channel_id = p.channel_name;
  proposed_transaction = some p.proposal;
  target_organizations = p.proposed_transaction.endorsing_organizations;
}

unfoldable pub new_endorse_request : ProposalImpl → EndorseRequest
new_endorse_request p = record {
  transaction_id = p.proposed_transaction.transaction_id;
  channel_id = p.channel_name;
  proposed_transaction = some p.proposal;
  endorsing_organizations = p.proposed_transaction.endorsing_organizations;
}

unfoldable pub new_prepared_transaction : ProposalImpl → Envelope → PreparedTransaction
new_prepared_transaction p envelope = record {
  transaction_id = p.proposed_transaction.transaction_id;
  envelope = some envelope;
}

-- `result?.getPayload_asU8() || new Uint8Array(0)`
abbrev pub response_payload : EvaluateResponse → Bytes
response_payload response = elim response.result [ none ↦ [] | some result ↦ result.payload ]

module _ (pb : Protos) (node : Platform) (client : GatewayClient) where
  unfoldable pub evaluate : Option CallOptions → Method ProposalImpl Bytes
  evaluate options = do
    sign_if_unsigned proposal_signable
    p ← gets (λ s. s.0)
    response ← on_history (Client.evaluate pb client (new_evaluate_request p) options)
    pure (response_payload response)

  unfoldable pub endorse : Option CallOptions → Method ProposalImpl TransactionImpl
  unfolding assert_defined
  endorse options = do
    sign_if_unsigned proposal_signable
    p ← gets (λ s. s.0)
    response ← on_history (Client.endorse pb client (new_endorse_request p) options)
    envelope ← of_result (
        map_err Thrown.error
          (assert_defined response.prepared_transaction "Missing transaction envelope"))
    of_result
        (new_transaction_impl pb node p.signing_identity (new_prepared_transaction p envelope))
