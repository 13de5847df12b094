-- ===== src/Scenario/Invocation.antt =====
-- scenario/node/src/transactioninvocation.ts: one transaction of a scenario, evaluated or submitted,
-- with an optional off-line signer.
pub mod Online
pub mod Offline
pub mod Alike
pub mod Endorsing
pub mod Submitting
pub mod OfflineSubmit
use Prim.Native.String.{◌++◌}
use text.Mathlib.Text.{◌==◌}
use fabric_gateway.Base.{ℕ, String, Option, none, some, ◌∷◌, Bytes, if◌then◌else◌}
use fabric_gateway.Base.{◌==◌ as is_same}
use fabric_gateway.Js.Text.{number_to_string}
use fabric_gateway.Effect.{
  Result, ok, err, map_err, pure, of_result, gets, modify, on_history, ◌>>=◌, ◌>>◌,
}
use fabric_gateway.Errors.{JsError, new_error, Thrown, Event, History, M, Method, throw_error}
use fabric_gateway.Platform.{Platform}
use fabric_gateway.Protos.{Protos}
use fabric_gateway.Signing.{SigningIdentity, Signer}
use fabric_gateway.Signing.Signable.{Signable, get_digest}
use fabric_gateway.Client.{GatewayClient}
use fabric_gateway.ProposalBuilder.{ProposalOptions}
use fabric_gateway.Proposal.{ProposalImpl, proposal_signable}
use fabric_gateway.Proposal
use fabric_gateway.Transaction.{TransactionImpl, transaction_signable}
use fabric_gateway.Transaction
use fabric_gateway.Commit.{CommitImpl, commit_signable, get_status, get_result}
use fabric_gateway.Commit
use fabric_gateway.Contract.{ContractImpl, no_options, new_proposal}
use fabric_gateway.Effect.{call_on}
use fabric_gateway.Gateway.{new_signed_proposal, new_signed_transaction, new_signed_commit}
use fabric_gateway.Status.{Status}
use fabric_gateway.Scenario.Utils.{Inspection, bytes_as_string, to_string, to_error}

-- What `getInvoke` chooses.
pub data Invoke : Type 0 where
  evaluates submits : Invoke

-- The gateway of the invocation counts by its signing identity; its client is a parameter.
pub record TransactionInvocation : Type 0 where
  pub options : ProposalOptions
  pub name : String
  pub gateway : SigningIdentity
  pub contract : ContractImpl
  pub invoke : Invoke
  pub offline_signer : Option Signer
  pub result : Option Bytes
  pub failure : Option Thrown
  pub block_number : ℕ

unfoldable pub get_invoke : String → Result JsError Invoke
get_invoke type =
    if type == "evaluate"
    then ok evaluates
    else if type == "submit"
    then ok submits
    else throw_error ("Unknown invocation type: " ++ type)

-- The constructor.
unfoldable pub new_transaction_invocation :
    String → SigningIdentity → ContractImpl → String → Result JsError TransactionInvocation
unfolding get_invoke
new_transaction_invocation type gateway contract name = elim (get_invoke type) [
  | err e ↦ err e
  | ok invoke ↦ ok (record {
    options = no_options;
    name = name;
    gateway = gateway;
    contract = contract;
    invoke = invoke;
    offline_signer = none;
    result = none;
    failure = none;
    block_number = 0;
  })
]

unfoldable pub set_offline_signer : Signer → TransactionInvocation → TransactionInvocation
set_offline_signer signer i = record i { offline_signer = some signer }

-- A byte array is truthy, even an empty one.
unfoldable pub get_result_text : Inspection → TransactionInvocation → Result JsError String
unfolding to_string bytes_as_string
get_result_text util i = elim i.result [
  | none ↦ throw_error ("No transaction result. Error is: " ++ to_string util i.failure)
  | some result ↦ ok (bytes_as_string util (some result))
]

unfoldable pub get_error : Inspection → TransactionInvocation → Result JsError Thrown
unfolding bytes_as_string
get_error util i = elim i.failure [
  | none ↦ throw_error ("No transaction error. Result is: " ++ bytes_as_string util i.result)
  | some failure ↦ ok failure
]

unfoldable pub get_block_number : TransactionInvocation → ℕ
get_block_number i = i.block_number

-- A call of a signer.
abbrev call_signer : Signer → Bytes → M Bytes
call_signer signer digest h = (signer h digest, Event.sign digest ∷ h)

-- `sign`, over the class of the object, its bytes and the gateway's method.
unfoldable pub sign_offline :
    {T : Type 0}
    → Signable T
    → (T → Bytes)
    → (Bytes → Bytes → Result Thrown T)
    → Option Signer
    → T
    → M T
sign_offline o get_bytes new_instance none signable = pure signable
sign_offline o get_bytes new_instance (some signer) signable = do
  signature ← call_signer signer (get_digest o signable)
  of_result (new_instance (get_bytes signable) signature)

abbrev pub commit_failed : ℕ → Thrown
commit_failed code =
    Thrown.error (new_error ("Transaction commit failed with status: " ++ number_to_string code))

-- The end of `submit`.
abbrev pub valid_result : Protos → Bytes × Status → Result Thrown Bytes
valid_result pb (result, status) =
    if is_same status.code pb.valid then ok result else err (commit_failed status.code)

module _ (pb : Protos) (node : Platform) where
  abbrev pub sign_proposal : TransactionInvocation → ProposalImpl → M ProposalImpl
  sign_proposal i =
      sign_offline proposal_signable (Proposal.get_bytes pb)
        (λ b s. map_err Thrown.error (new_signed_proposal pb i.gateway b s)) i.offline_signer

  abbrev pub sign_transaction : TransactionInvocation → TransactionImpl → M TransactionImpl
  sign_transaction i =
      sign_offline transaction_signable (Transaction.get_bytes pb)
        (new_signed_transaction pb node i.gateway) i.offline_signer

  abbrev pub sign_commit : TransactionInvocation → CommitImpl → M CommitImpl
  sign_commit i =
      sign_offline commit_signable (Commit.get_bytes pb)
        (λ b s. map_err Thrown.error (new_signed_commit pb i.gateway b s)) i.offline_signer

module _ (pb : Protos) (node : Platform) (client : GatewayClient) where
  unfoldable pub evaluate : TransactionInvocation → M Bytes
  evaluate i = do
    proposal ← new_proposal pb node i.contract i.name (some i.options)
    signed ← sign_proposal pb node i proposal
    call_on signed (Proposal.evaluate pb node client none)

  -- What `submit` does up to the status of the commit.
  unfoldable pub submit_for_status : TransactionInvocation → M (Bytes × Status)
  submit_for_status i = do
    unsigned_proposal ← new_proposal pb node i.contract i.name (some i.options)
    signed_proposal ← sign_proposal pb node i unsigned_proposal
    unsigned_transaction ← call_on signed_proposal (Proposal.endorse pb node client none)
    signed_transaction ← sign_transaction pb node i unsigned_transaction
    submitted ← call_on signed_transaction (Transaction.submit pb client none)
    signed_commit ← sign_commit pb node i submitted.commit
    status ← call_on signed_commit (get_status pb client none)
    pure (get_result submitted, status)

  -- `submit`, which keeps the block's number.
  unfoldable pub submit : Method TransactionInvocation Bytes
  unfolding submit_for_status
  submit = do
    i ← gets (λ s. s.0)
    done ← on_history (submit_for_status i)
    modify (λ s. (record (s.0) { block_number = done.1.block_number }, s.1))
    of_result (valid_result pb done)

  unfoldable pub run : Invoke → Method TransactionInvocation Bytes
  unfolding evaluate submit
  run evaluates (i, h) = on_history (evaluate i) (i, h)
  run submits s = submit s

  -- `invokeTransaction`. An exception that escapes from a callback of gRPC is not caught.
  abbrev pub caught :
      Inspection
      → Result Thrown Bytes × (TransactionInvocation × History)
      → Result Thrown (Unit {0}) × (TransactionInvocation × History)
  caught util (ok bytes, (i, h)) = (ok tt, (record i { result = some bytes }, h))
  caught util (err (Thrown.uncaught x), s) = (err (Thrown.uncaught x), s)
  caught util (err e, (i, h)) = (ok tt, (record i { failure = some (to_error util e) }, h))

  unfoldable pub invoke_transaction : Inspection → Method TransactionInvocation (Unit {0})
  unfolding run to_error
  invoke_transaction util (i, h) = caught util (run i.invoke (i, h))
