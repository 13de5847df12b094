-- ===== src/Commit.antt =====
-- node/src/commit.ts and node/src/submittedtransaction.ts: the commit status of a transaction.

pub mod Sending
pub mod Signing
use fabric_gateway.Base.{ℕ, String, Option, Bytes, Bool, length, ltb, ◌==◌}
use fabric_gateway.Effect.{◌>>=◌, ◌>>◌, pure, gets, on_history}
use fabric_gateway.Errors.{CallOptions, Method}
use fabric_gateway.Protos.{Protos}
use fabric_gateway.Protos.Gateway.{SignedCommitStatusRequest, CommitStatusResponse}
use fabric_gateway.Signing.{SigningIdentity, or_default}
use fabric_gateway.Signing.Signable.{Signable, sign_if_unsigned}
use fabric_gateway.Status.{Status}
use fabric_gateway.Client.{GatewayClient, commit_status}

-- `CommitImpl`; the client is a parameter of the methods.
pub record CommitImpl : Type 0 where
  pub signing_identity : SigningIdentity
  pub transaction_id : String
  pub signed_request : SignedCommitStatusRequest

unfoldable pub set_signature : Bytes → CommitImpl → CommitImpl
set_signature b c = record c { signed_request = record (c.signed_request) { signature = b } }

unfoldable pub is_signed : CommitImpl → Bool
is_signed c = ltb 0 (length c.signed_request.signature)

abbrev pub commit_signable : Signable CommitImpl
commit_signable = record {
  signing_identity = λ c. c.signing_identity;
  message = λ c. c.signed_request.request;
  signature = λ c. c.signed_request.signature;
  is_signed = is_signed;
  set_signature = set_signature;
}

unfoldable pub get_transaction_id : CommitImpl → String
get_transaction_id c = c.transaction_id

module _ (pb : Protos) where
  unfoldable pub get_bytes : CommitImpl → Bytes
  get_bytes c = pb.signed_commit_status_request.serialize_binary c.signed_request

  abbrev pub status_code : CommitStatusResponse → ℕ
  status_code response = or_default response.result pb.invalid_other_reason

  unfoldable pub new_status : CommitImpl → CommitStatusResponse → Status
  new_status c response = record {
    block_number = response.block_number;
    code = status_code response;
    successful = status_code response == pb.valid;
    transaction_id = c.transaction_id;
  }

module _ (pb : Protos) (client : GatewayClient) where
  unfoldable pub get_status : Option CallOptions → Method CommitImpl Status
  get_status options = do
    sign_if_unsigned commit_signable
    c ← gets (λ s. s.0)
    response ← on_history (commit_status pb client c.signed_request options)
    pure (new_status pb c response)

-- `SubmittedTransactionImpl`
pub record SubmittedTransaction : Type 0 where
  pub commit : CommitImpl
  pub result : Bytes

unfoldable pub get_result : SubmittedTransaction → Bytes
get_result s = s.result
