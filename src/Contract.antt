-- ===== src/Contract.antt =====
-- node/src/contract.ts: evaluating and submitting the transactions of a smart contract.
pub mod Calls
pub mod Submitting
pub mod Proposing
use Prim.Native.String.{◌++◌}
use text.Mathlib.Text.{◌==◌}
use fabric_gateway.Base.{String, Option, none, some, List, Bytes, if◌then◌else◌}
use fabric_gateway.Js.{Value}
use fabric_gateway.Effect.{◌>>=◌, pure, throw, call_on}
use fabric_gateway.Errors.{Thrown, M}
use fabric_gateway.Platform.{Platform}
use fabric_gateway.Protos.{Protos}
use fabric_gateway.Signing.{SigningIdentity, or_default}
use fabric_gateway.Client.{GatewayClient}
use fabric_gateway.Status.{Status, new_commit_error}
use fabric_gateway.ProposalBuilder.{ProposalOptions, new_proposal_builder, build}
use fabric_gateway.Proposal.{ProposalImpl}
use fabric_gateway.Proposal
use fabric_gateway.Transaction
use fabric_gateway.Commit.{SubmittedTransaction, get_status, get_result}

-- `ContractImpl`; the client is a parameter of the methods.
pub record ContractImpl : Type 0 where
  pub signing_identity : SigningIdentity
  pub channel_name : String
  pub chaincode_name : String
  pub contract_name : Option String

-- The default of an options argument, `{}`.
abbrev pub no_options : ProposalOptions
no_options = record { arguments = none; transient_data = none; endorsing_organizations = none }

unfoldable pub get_chaincode_name : ContractImpl → String
get_chaincode_name c = c.chaincode_name

unfoldable pub get_contract_name : ContractImpl → Option String
get_contract_name c = c.contract_name

-- An empty contract name is falsy.
abbrev qualify : Option String → String → String
qualify none transaction_name = transaction_name
qualify (some name) transaction_name =
    if name == "" then transaction_name else name ++ ":" ++ transaction_name

unfoldable pub get_qualified_transaction_name : ContractImpl → String → String
get_qualified_transaction_name c transaction_name = qualify c.contract_name transaction_name

module _ (pb : Protos) (node : Platform) where
  unfoldable pub new_proposal : ContractImpl → String → Option ProposalOptions → M ProposalImpl
  unfolding get_qualified_transaction_name
  new_proposal c transaction_name options = do
    builder ← new_proposal_builder node (record {
      options = or_default options no_options;
      signing_identity = c.signing_identity;
      channel_name = c.channel_name;
      chaincode_name = c.chaincode_name;
      transaction_name = get_qualified_transaction_name c transaction_name;
    })
    build pb node builder

module _ (pb : Protos) (node : Platform) (client : GatewayClient) where
  unfoldable pub evaluate : ContractImpl → String → Option ProposalOptions → M Bytes
  evaluate c transaction_name options = do
    proposal ← new_proposal pb node c transaction_name options
    call_on proposal (Proposal.evaluate pb node client none)

  unfoldable pub submit_async :
      ContractImpl → String → Option ProposalOptions → M SubmittedTransaction
  submit_async c transaction_name options = do
    proposal ← new_proposal pb node c transaction_name options
    transaction ← call_on proposal (Proposal.endorse pb node client none)
    call_on transaction (Transaction.submit pb client none)

  abbrev pub result_if_successful : SubmittedTransaction → Status → M Bytes
  result_if_successful submitted status =
      if status.successful
      then pure (get_result submitted)
      else throw (Thrown.commit_error (new_commit_error pb status))

  unfoldable pub submit : ContractImpl → String → Option ProposalOptions → M Bytes
  unfolding get_result
  submit c transaction_name options = do
    submitted ← submit_async c transaction_name options
    status ← call_on submitted.commit (get_status pb client none)
    result_if_successful submitted status

  abbrev with_arguments : List Value → Option ProposalOptions
  with_arguments args =
      some (record { arguments = some args; transient_data = none; endorsing_organizations = none })

  unfoldable pub evaluate_transaction : ContractImpl → String → List Value → M Bytes
  evaluate_transaction c name args = evaluate c name (with_arguments args)

  unfoldable pub submit_transaction : ContractImpl → String → List Value → M Bytes
  submit_transaction c name args = submit c name (with_arguments args)
