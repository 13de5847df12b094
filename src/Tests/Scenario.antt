-- ===== src/Tests/Scenario.antt =====
-- The theorems about the driver of the scenarios, at concrete inputs.
use fabric_gateway.Base.{
  ap, sym, ◌∙◌, Bytes, ltb, length, Bool, ◌&&◌, ◌≡◌, refl, String, Option, none, some, List, [],
  ◌∷◌, true, false,
}
use fabric_gateway.Effect.{continue_with, Result, ok, err}
use fabric_gateway.Errors.{Thrown, new_error}
use fabric_gateway.Signing.{Signer}
use fabric_gateway.Client.{GatewayGrpcClient}
use fabric_gateway.Contract.{no_options}
use fabric_gateway.Contract
use fabric_gateway.Contract.{submit_async}
use fabric_gateway.Protos.Peer.{Envelope}
use fabric_gateway.Protos.Gateway.{EndorseResponse}
use fabric_gateway.Scenario.Invocation.{submit_for_status}
use fabric_gateway.Scenario.Invocation.Online.{await_commit}
use fabric_gateway.Scenario.Invocation.Endorsing.{UnsignedEnvelopes}
use fabric_gateway.Scenario.Invocation.OfflineSubmit.{submit-offline}
use fabric_gateway.Tests.World.{endorse_response, endorsed}
use fabric_gateway.Scenario.Utils.{Inspection}
use fabric_gateway.Scenario.Invocation.{
  TransactionInvocation, Invoke, evaluates, submits, evaluate, submit,
}
use fabric_gateway.Scenario.Invocation.Online.{SameOutcome, submit-Contract}
use fabric_gateway.Scenario.Invocation.Offline.{contract_with, evaluate-offline}
use fabric_gateway.Scenario.Context.{Connection, new_transaction, client_of}
use fabric_gateway.Scenario.Context.Consistent.{ContextState, own_identity}
use fabric_gateway.Scenario.Context.Steps.{
  ContextStep, connecting, using_network, using_contract, reached, IsOfChannel, new_transaction-own,
}
use fabric_gateway.Scenario.World.{CustomWorld, new_world}
use fabric_gateway.Scenario.World.Calls.{invoke_transaction}
use fabric_gateway.Scenario.World.Blocks.{block_after, invoke_transaction-last_block}
use fabric_gateway.Tests.Wires.{protos}
use fabric_gateway.Tests.Parsing.{protos-RoundTrips}
use fabric_gateway.Tests.Concurrent.{identity-signer}
use fabric_gateway.Tests.Run.{run}
use fabric_gateway.Tests.World.{node, identity, answering, contract, detail, rejected}
use fabric_gateway.Scenario.Details.{
  passes, error_details_should_be, are_expected, expected_details, are_distinct,
  error_details_should_be-passes,
}

abbrev invocation : Invoke → Option Signer → TransactionInvocation
invocation invoke signer = record {
  options = no_options;
  name = "put";
  gateway = identity;
  contract = contract;
  invoke = invoke;
  offline_signer = signer;
  result = none;
  failure = none;
  block_number = 0;
}

submit-Contract_example :
    SameOutcome protos
      (submit protos node answering (invocation submits none, [])).0
      (Contract.submit protos node answering contract "put" (some no_options) []).0
    × ((submit protos node answering (invocation submits none, [])).1.1
        ≡ (Contract.submit protos node answering contract "put" (some no_options) []).1)
submit-Contract_example = submit-Contract protos node answering (invocation submits none) [] refl

evaluate-offline_example :
    evaluate protos node answering (invocation evaluates (some identity.signer)) []
    ≡ Contract.evaluate protos node answering
        (contract_with identity.signer contract)
        "put"
        (some no_options)
        []
evaluate-offline_example =
    evaluate-offline protos protos-RoundTrips node answering
      (invocation evaluates (some identity.signer)) [] identity.signer refl refl identity-signer

abbrev connection : Connection
connection = record {
  url = "localhost:7051";
  server_name_override = "peer0.org1.example.com";
  tls_root_cert = [];
  number = 0;
}

abbrev pub clients : Connection → GatewayGrpcClient
clients k = answering.grpc

abbrev steps : List ContextStep
steps = connecting connection ∷ using_network "mychannel" ∷ using_contract "basic" ∷ []

abbrev context : ContextState
context = reached protos node clients identity.identity (some identity.signer) none steps []

abbrev made_or : Result Thrown (TransactionInvocation × Connection) → TransactionInvocation
made_or (ok (i, k)) = i
made_or (err x) = invocation evaluates none

abbrev made : TransactionInvocation
made = made_or (new_transaction "evaluate" "get" context).0

new_transaction-own_example :
    (made.gateway ≡ own_identity protos node identity.identity (some identity.signer))
    × (made.contract.signing_identity
        ≡ own_identity protos node identity.identity (some identity.signer))
    × IsOfChannel context.0.0.network made connection
unfolding run
new_transaction-own_example =
    new_transaction-own protos node clients identity.identity (some identity.signer) none steps []
      "evaluate" "get" made connection context refl

abbrev world : CustomWorld
world = record (new_world (record { has_hsm_signer_factory = false; calls = [] })) {
  transaction = some (invocation submits none, connection);
}

abbrev pub util : Inspection
util = record { inspect = λ thing. "thing"; decode = λ bytes. "text" }

invoke_transaction-last_block_example :
    (invoke_transaction protos node clients util (world, [])).1.0.last_committed_block_number
    ≡ block_after protos node
        (client_of protos node clients connection)
        submits
        (invocation submits none)
        []
unfolding run
invoke_transaction-last_block_example =
    invoke_transaction-last_block protos node clients util world [] (invocation submits none)
      connection refl refl

block_run :
    (invoke_transaction protos node clients util (world, [])).1.0.last_committed_block_number ≡ 12
unfolding run
block_run = refl

abbrev contains : String → String → Bool
contains text part = true

error_details_should_be-passes_example :
    passes (
      error_details_should_be contains
        (Thrown.error (new_error ""))
        rejected
        (detail ∷ detail ∷ []))
    ≡ (are_expected contains
          (Thrown.error (new_error ""))
          rejected.details
          (expected_details (detail ∷ detail ∷ []) [])
        && are_distinct rejected.details)
error_details_should_be-passes_example =
    error_details_should_be-passes contains (Thrown.error (new_error "")) rejected
      (detail ∷ detail ∷ [])

abbrev signature_or : Option Envelope → Bytes
signature_or none = []
signature_or (some v) = v.signature

abbrev response_or : EndorseResponse → Result Thrown EndorseResponse → EndorseResponse
response_or other (ok response) = response
response_or other (err x) = other

answering-UnsignedEnvelopes : UnsignedEnvelopes protos answering
unfolding run
answering-UnsignedEnvelopes request h response envelope e f =
    let answer : endorse_response ≡ response = ap (response_or response) e in
    let sent : some endorsed ≡ some envelope =
      ap (λ (r : EndorseResponse). r.prepared_transaction) answer ∙ f in
    ap (λ (v : Option Envelope). ltb 0 (length (signature_or v))) (sym sent)

submit-offline_example :
    submit_for_status protos node answering (invocation submits (some identity.signer)) []
    ≡ continue_with (await_commit protos answering) (
        submit_async protos node answering
          (contract_with identity.signer contract)
          "put"
          (some no_options)
          [])
submit-offline_example =
    submit-offline protos protos-RoundTrips node answering
      (invocation submits (some identity.signer)) [] identity.signer refl refl identity-signer
      answering-UnsignedEnvelopes
