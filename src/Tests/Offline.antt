-- ===== src/Tests/Offline.antt =====
-- The theorems about proposals, and about signing off line, at concrete inputs.
use fabric_gateway.Base.{◌≡◌, refl, some, [], ◌∷◌}
use fabric_gateway.Js.{text, bytes}
use fabric_gateway.Js.Object.{get}
use fabric_gateway.Effect.{ok}
use fabric_gateway.Proposal.{ProposalImpl}
use fabric_gateway.Proposal
use fabric_gateway.ProposalBuilder.{
  ProposalOptions, ProposalBuilder, new_proposed_transaction, new_chaincode_proposal_payload,
  new_signed_proposal,
}
use fabric_gateway.ProposalBuilder.Invocation.{read_invocation}
use fabric_gateway.ProposalBuilder.Transient.{get-transient_map, to_bytes}
use fabric_gateway.Contract.Proposing.{new_proposal-read_invocation, builder_options, invocation_of}
use fabric_gateway.TransactionContext.{context_of, nonce_length}
use fabric_gateway.Transaction.{new_submitted_transaction}
use fabric_gateway.Transaction
use fabric_gateway.Commit
use fabric_gateway.Gateway
use fabric_gateway.Gateway.Offline.{
  new_signed_proposal-build, new_signed_transaction-get_bytes, new_signed_commit-get_bytes,
}
use fabric_gateway.Tests.Wires.{protos}
use fabric_gateway.Tests.Parsing.{protos-RoundTrips}
use fabric_gateway.Tests.Run.{run}
use fabric_gateway.Tests.World.{node, identity, contract}
use fabric_gateway.Tests.Objects.{prepared, unsigned_transaction}

abbrev options : ProposalOptions
options = record {
  arguments = some (text "one" ∷ bytes (2 ∷ []) ∷ []);
  transient_data = some (("price", text "7") ∷ ("seal", bytes (1 ∷ 2 ∷ [])) ∷ []);
  endorsing_organizations = some ("Org1MSP" ∷ []);
}

abbrev builder : ProposalBuilder
builder = record {
  options = builder_options contract "put" (some options);
  transaction_context = context_of identity (node.random_bytes [] nonce_length);
}

abbrev proposal : ProposalImpl
proposal = record {
  signing_identity = identity;
  channel_name = "mychannel";
  proposed_transaction = new_proposed_transaction protos builder 1000;
  proposal = new_signed_proposal protos builder 1000;
}

new_proposal-read_invocation_example :
    (read_invocation protos proposal.proposal.proposal_bytes
      ≡ ok (invocation_of protos contract "put" (some options) (node.random_bytes [] nonce_length)))
    × (proposal.proposed_transaction.transaction_id
        ≡ (invocation_of protos contract "put"
            (some options)
            (node.random_bytes [] nonce_length)).transaction_id)
unfolding run
new_proposal-read_invocation_example =
    new_proposal-read_invocation protos protos-RoundTrips node contract "put" (some options) []
      proposal
      (new_chaincode_proposal_payload protos (builder_options contract "put" (some options))) refl
      refl refl

get-transient_map_example :
    get "seal" (new_chaincode_proposal_payload protos builder.options).transient_map
    ≡ to_bytes (some (bytes (1 ∷ 2 ∷ [])))
unfolding run
get-transient_map_example = get-transient_map protos builder.options "seal" (refl, (refl, tt))

new_signed_proposal-build_example :
    Gateway.new_signed_proposal protos identity (Proposal.get_bytes protos proposal) (7 ∷ [])
    ≡ ok (Proposal.set_signature (7 ∷ []) proposal)
unfolding run
new_signed_proposal-build_example =
    new_signed_proposal-build protos protos-RoundTrips node builder [] proposal (7 ∷ []) refl

new_signed_transaction-get_bytes_example :
    Gateway.new_signed_transaction protos node identity
      (Transaction.get_bytes protos unsigned_transaction)
      (7 ∷ [])
    ≡ ok (Transaction.set_signature (7 ∷ []) unsigned_transaction)
unfolding run
new_signed_transaction-get_bytes_example =
    new_signed_transaction-get_bytes protos protos-RoundTrips node identity prepared
      unsigned_transaction (7 ∷ []) refl

new_signed_commit-get_bytes_example :
    Gateway.new_signed_commit protos identity
      (Commit.get_bytes protos (new_submitted_transaction protos unsigned_transaction).commit)
      (7 ∷ [])
    ≡ ok (
        Commit.set_signature
          (7 ∷ [])
          (new_submitted_transaction protos unsigned_transaction).commit)
unfolding run
new_signed_commit-get_bytes_example =
    new_signed_commit-get_bytes protos protos-RoundTrips unsigned_transaction (7 ∷ [])
