-- ===== src/Samples/Basic/Examples.antt =====
-- The examples in samples/node/src/sample.ts.
use Prim.Native.String.{◌++◌}
use fabric_gateway.Base.{ℕ, String, Option, none, some, List, [], ◌∷◌, Bytes, if◌then◌else◌}
use fabric_gateway.Js.{Value, text}
use fabric_gateway.Js.Text.{number_to_string}
use fabric_gateway.Effect.{pure, throw, call_on, ◌>>=◌, ◌>>◌}
use fabric_gateway.Errors.{Thrown, new_error}
use fabric_gateway.Platform.{Platform}
use fabric_gateway.Protos.{Protos}
use fabric_gateway.Status.{Status}
use fabric_gateway.ProposalBuilder.{ProposalOptions}
use fabric_gateway.Contract.{
  ContractImpl, no_options, submit, submit_async, submit_transaction, evaluate_transaction,
}
use fabric_gateway.Commit.{get_status, get_result}
use fabric_gateway.Network.{NetworkImpl, get_contract}
use fabric_gateway.Gateway.{GatewayImpl, get_network}
use fabric_gateway.Samples.Runtime.{Setting, thrown, Sample, call, log, iso_timestamp}

abbrev pub failed_to_commit : String → ℕ → String
failed_to_commit transaction_id code =
    "Transaction "
    ++ transaction_id
    ++ " failed to commit with status code: "
    ++ number_to_string code

-- The `if` after a commit status.
abbrev pub require_successful : Status → Sample (Unit {0})
require_successful status =
    if status.successful
    then pure tt
    else throw
        (thrown (Thrown.error (new_error (failed_to_commit status.transaction_id status.code))))

abbrev with_data : List (String × Value) → Option (List String) → Option ProposalOptions
with_data transient organizations =
    some (record no_options {
      transient_data = some transient;
      endorsing_organizations = organizations;
    })

abbrev pub with_arguments : List Value → Option ProposalOptions
with_arguments args = some (record no_options { arguments = some args })

abbrev pub channel : GatewayImpl → NetworkImpl
channel g = get_network g "mychannel"

module _ (pb : Protos) (node : Platform) (setting : Setting) (g : GatewayImpl) where
  abbrev pub contract : String → ContractImpl
  contract name = get_contract (channel g) name none

  abbrev pub bytes_as_string : Bytes → String
  bytes_as_string bytes = setting.util.decode bytes

  abbrev log_result : String → Bytes → Sample (Unit {0})
  log_result title bytes = log (title ∷ bytes_as_string bytes ∷ [])

  abbrev pub submitted : ContractImpl → String → List Value → Sample Bytes
  submitted c name args = call (submit_transaction pb node g.client c name args)

  abbrev evaluated : ContractImpl → String → List Value → Sample Bytes
  evaluated c name args = call (evaluate_transaction pb node g.client c name args)

  unfoldable pub example_submit : Sample (Unit {0})
  unfolding get_network get_contract
  example_submit = do
    timestamp ← iso_timestamp node setting
    log ("Submitting \"put\" transaction with arguments: time," ∷ timestamp ∷ [])
    submit_result ← submitted (contract "basic") "put" (text "time" ∷ text timestamp ∷ [])
    log_result "Submit result:" submit_result
    log ("Evaluating \"get\" query with arguments: time" ∷ [])
    evaluate_result ← evaluated (contract "basic") "get" (text "time" ∷ [])
    log_result "Query result:" evaluate_result

  unfoldable pub example_submit_async : Sample (Unit {0})
  unfolding get_network get_contract get_result
  example_submit_async = do
    timestamp ← iso_timestamp node setting
    log ("Submitting \"put\" transaction asynchronously with arguments: async," ∷ timestamp ∷ [])
    commit ← call (
        submit_async pb node g.client (contract "basic") "put"
          (with_arguments (text "async" ∷ text timestamp ∷ [])))
    log_result "Submit result:" (get_result commit)
    log ("Waiting for transaction commit" ∷ [])
    status ← call (call_on commit.commit (get_status pb g.client none))
    require_successful status
    log ("Transaction committed successfully" ∷ [])
    log ("Evaluating \"get\" query with arguments: async" ∷ [])
    evaluate_result ← evaluated (contract "basic") "get" (text "async" ∷ [])
    log_result "Query result:" evaluate_result

  abbrev private_data : String → String → String → List (String × Value)
  private_data collection key secret =
      ("collection", text collection) ∷ ("key", text key) ∷ ("value", text secret) ∷ []

  unfoldable pub example_submit_private_data : Sample (Unit {0})
  unfolding get_network get_contract
  example_submit_private_data = do
    timestamp ← iso_timestamp node setting
    log ("Submitting \"WritePrivateData\" transaction with private data:" ∷ timestamp ∷ [])
    call (
        submit pb node g.client (contract "private") "WritePrivateData" (
          with_data (private_data "SharedCollection,Org3Collection" "my-private-key" timestamp)
            none))
    log (
        "Evaluating \"ReadPrivateData\" query with arguments: \"SharedCollection\", \"my-private-key\""
        ∷ [])
    evaluate_result ←
        evaluated (contract "private") "ReadPrivateData"
          (text "SharedCollection" ∷ text "my-private-key" ∷ [])
    log_result "Query result:" evaluate_result

  unfoldable pub example_submit_private_data2 : Sample (Unit {0})
  unfolding get_network get_contract
  example_submit_private_data2 = do
    timestamp ← iso_timestamp node setting
    log ("Submitting \"WritePrivateData\" transaction with private data:" ∷ timestamp ∷ [])
    call (
        submit pb node g.client (contract "private") "WritePrivateData" (
          with_data (private_data "Org1Collection,Org3Collection" "my-private-key2" timestamp)
            (some ("Org1MSP" ∷ "Org3MSP" ∷ []))))
    log (
        "Evaluating \"ReadPrivateData\" query with arguments: \"Org1Collection\", \"my-private-key2\""
        ∷ [])
    evaluate_result ←
        evaluated (contract "private") "ReadPrivateData"
          (text "Org1Collection" ∷ text "my-private-key2" ∷ [])
    log_result "Query result:" evaluate_result

  abbrev pub query_state : Sample (Unit {0})
  query_state = do
    log ("Evaluating \"GetState\" query with arguments: \"sbe-key\"" ∷ [])
    evaluate_result ← evaluated (contract "private") "GetState" (text "sbe-key" ∷ [])
    log_result "Query result:" evaluate_result

  unfoldable pub example_state_based_endorsement : Sample (Unit {0})
  unfolding get_network get_contract
  example_state_based_endorsement = do
    log (
        "Submitting \"SetStateWithEndorser\" transaction with arguments:  \"sbe-key\", \"value1\", \"Org1MSP\""
        ∷ [])
    submitted (contract "private") "SetStateWithEndorser"
        (text "sbe-key" ∷ text "value1" ∷ text "Org1MSP" ∷ [])
    query_state
    log ("Submitting \"ChangeState\" transaction with arguments:  \"sbe-key\", \"value2\"" ∷ [])
    submitted (contract "private") "ChangeState" (text "sbe-key" ∷ text "value2" ∷ [])
    query_state
    log (
        "Submitting \"SetStateEndorsers\" transaction with arguments:  \"sbe-key\", \"Org2MSP\", \"Org3MSP\""
        ∷ [])
    submitted (contract "private") "SetStateEndorsers"
        (text "sbe-key" ∷ text "Org2MSP" ∷ text "Org3MSP" ∷ [])
    log ("Submitting \"ChangeState\" transaction with arguments:  \"sbe-key\", \"value3\"" ∷ [])
    submitted (contract "private") "ChangeState" (text "sbe-key" ∷ text "value3" ∷ [])
    query_state
