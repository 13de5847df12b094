-- ===== src/Transaction/Sending.antt =====
-- What submitting a transaction asks of the signer and of the service.
use fabric_gateway.Base.{refl, Option, some, Bytes}
use fabric_gateway.Effect.{pure}
use fabric_gateway.Errors.{CallOptions, Event, History}
use fabric_gateway.Protos.{Protos}
use fabric_gateway.Signing.{hash}
use fabric_gateway.Signing.Signable.{get_digest}
use fabric_gateway.Signing.Sent.{Sends, sign_if_unsigned-Sends}
use fabric_gateway.Client.{GatewayClient, submit_method}
use fabric_gateway.Client
use fabric_gateway.Client.Asking.{unary_call-Asks}
use fabric_gateway.Transaction.{
  TransactionImpl, transaction_signable, set_signature, submit, new_submit_request,
  new_submitted_transaction, get_transaction_id,
}
use fabric_gateway.Transaction.Sharing.{transaction_signable-IsSignable}

-- A `Submit` call with the envelope of `t` and this signature.
abbrev pub submission_of : Protos → TransactionImpl → Bytes → CallOptions → Event
submission_of pb t signature built =
    Event.unary_call submit_method
      (pb.submit_request.serialize_binary (record {
        transaction_id = t.prepared_transaction.transaction_id;
        channel_id = t.channel_name;
        prepared_transaction =
            some (record { payload = t.envelope.payload; signature = signature });
      }))
      built

module _ (pb : Protos) (client : GatewayClient) (options : Option CallOptions) (t : TransactionImpl)
    (h : History) where
  -- Whatever the signer and the service answer, submitting a transaction calls no signer if its
  -- envelope has a signature; else it calls the signer once, with the hash of the envelope's
  -- payload, and keeps its answer as the envelope's signature. If the signer throws, so does the
  -- method, and nothing is sent. Otherwise at most one call is made, and exactly one where the
  -- method returns, with the payload and the signature of the envelope: the one from before, or
  -- the answer.
  pub submit-Sends :
      Sends
        (λ (u : TransactionImpl). u.envelope.signature)
        t.envelope.signature
        t.signing_identity.signer
        (t.signing_identity.hash t.envelope.payload)
        (submission_of pb t)
        h
        (submit pb client options (t, h))
  unfolding submit Client.submit get_digest hash set_signature new_submit_request get_transaction_id
  submit-Sends =
      sign_if_unsigned-Sends transaction_signable transaction_signable-IsSignable
        (λ u. Client.submit pb client (new_submit_request u) options)
        (λ u response. pure (new_submitted_transaction pb u)) (submission_of pb t) t h
        (λ u response s. refl) (λ l. unary_call-Asks pb client _ _ _ _ _ options _ l)
        (λ b l. unary_call-Asks pb client _ _ _ _ _ options _ l)
