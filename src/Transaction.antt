-- ===== src/Transaction.antt =====
-- node/src/transaction.ts: an endorsed transaction. The envelope that the object holds is the one
-- inside its prepared transaction; `set_signature` writes through both.

pub mod Sending
pub mod Sharing
use fabric_gateway.Base.{List, String, Option, some, Bytes, Bool, length, ltb, ◌≡◌}
use fabric_gateway.Effect.{Result, ok, then_result, map_err, ◌>>=◌, ◌>>◌, pure, gets, on_history}
use fabric_gateway.Errors.{CallOptions, Thrown, Method, assert_defined}
use fabric_gateway.Platform.{Platform}
use fabric_gateway.Protos.{Protos}
use fabric_gateway.Protos.Peer.{Envelope}
use fabric_gateway.Protos.Gateway.{
  PreparedTransaction, SubmitRequest, CommitStatusRequest, SignedCommitStatusRequest,
}
use fabric_gateway.Signing.{SigningIdentity, get_creator}
use fabric_gateway.Signing.Signable.{Signable, sign_if_unsigned}
use fabric_gateway.TransactionParser.{parse_transaction_envelope}
use fabric_gateway.Client.{GatewayClient}
use fabric_gateway.Client
use fabric_gateway.Commit.{SubmittedTransaction}

-- `TransactionImpl`; the client is a parameter of the methods.
pub record TransactionImpl : Type 0 where
  pub signing_identity : SigningIdentity
  pub channel_name : String
  pub prepared_transaction : PreparedTransaction
  pub envelope : Envelope
  pub result : Bytes

-- The two references are to one envelope.
abbrev pub IsShared : TransactionImpl → Type 0
IsShared t = t.prepared_transaction.envelope ≡ some t.envelope

-- The constructor.
unfoldable pub new_transaction_impl :
    Protos → Platform → SigningIdentity → PreparedTransaction → Result Thrown TransactionImpl
unfolding assert_defined
new_transaction_impl pb node identity prepared =
    then_result (map_err Thrown.error (assert_defined prepared.envelope "Missing envelope"))
      λ envelope. then_result (parse_transaction_envelope pb node envelope) λ parsed. ok (record {
        signing_identity = identity;
        channel_name = parsed.channel_name;
        prepared_transaction = prepared;
        envelope = envelope;
        result = parsed.result;
      })

unfoldable pub set_signature : Bytes → TransactionImpl → TransactionImpl
set_signature b t =
    let envelope = record (t.envelope) { signature = b } in
    record t {
      prepared_transaction = record (t.prepared_transaction) { envelope = some envelope };
      envelope = envelope;
    }

unfoldable pub is_signed : TransactionImpl → Bool
is_signed t = ltb 0 (length t.envelope.signature)

abbrev pub transaction_signable : Signable TransactionImpl
transaction_signable = record {
  signing_identity = λ t. t.signing_identity;
  message = λ t. t.envelope.payload;
  signature = λ t. t.envelope.signature;
  is_signed = is_signed;
  set_signature = set_signature;
}

unfoldable pub get_result : TransactionImpl → Bytes
get_result t = t.result

unfoldable pub get_transaction_id : TransactionImpl → String
get_transaction_id t = t.prepared_transaction.transaction_id

unfoldable pub new_submit_request : TransactionImpl → SubmitRequest
unfolding get_transaction_id
new_submit_request t = record {
  transaction_id = get_transaction_id t;
  channel_id = t.channel_name;
  prepared_transaction = some t.envelope;
}

unfoldable pub new_commit_status_request : TransactionImpl → CommitStatusRequest
unfolding get_transaction_id get_creator
new_commit_status_request t = record {
  channel_id = t.channel_name;
  transaction_id = get_transaction_id t;
  identity = get_creator t.signing_identity;
}

module _ (pb : Protos) where
  unfoldable pub get_bytes : TransactionImpl → Bytes
  get_bytes t = pb.prepared_transaction.serialize_binary t.prepared_transaction

  -- A new message has the empty signature.
  unfoldable pub new_signed_commit_status_request : TransactionImpl → SignedCommitStatusRequest
  new_signed_commit_status_request t = record {
    request = pb.commit_status_request.serialize_binary (new_commit_status_request t);
    signature = List.[];
  }

  -- What `submit` returns of the transaction.
  unfoldable pub new_submitted_transaction : TransactionImpl → SubmittedTransaction
  unfolding get_transaction_id get_result new_signed_commit_status_request
  new_submitted_transaction t = record {
    commit = record {
      signing_identity = t.signing_identity;
      transaction_id = get_transaction_id t;
      signed_request = new_signed_commit_status_request t;
    };
    result = get_result t;
  }

module _ (pb : Protos) (client : GatewayClient) where
  unfoldable pub submit : Option CallOptions → Method TransactionImpl SubmittedTransaction
  submit options = do
    sign_if_unsigned transaction_signable
    t ← gets (λ s. s.0)
    on_history (Client.submit pb client (new_submit_request t) options)
    pure (new_submitted_transaction pb t)
