-- ===== src/Transaction/Sharing.antt =====
-- node/src/transaction.ts: the two references of a transaction object to an envelope.
use fabric_gateway.Base.{◌≡◌, refl, Option, Bytes, arith}
use fabric_gateway.Effect.{ok}
use fabric_gateway.Effect.Keeps.{
  Keeps, Keeps->>=, Keeps-gets, Keeps-of_result, Keeps-on_history, Keeps-sign_if_unsigned,
}
use fabric_gateway.Errors.{CallOptions, History}
use fabric_gateway.Protos.{Protos}
use fabric_gateway.Platform.{Platform}
use fabric_gateway.Protos.Gateway.{PreparedTransaction}
use fabric_gateway.Signing.{SigningIdentity}
use fabric_gateway.Signing.Signable.{IsSignable}
use fabric_gateway.Client.{GatewayClient}
use fabric_gateway.Client
use fabric_gateway.Transaction.{
  TransactionImpl, IsShared, transaction_signable, set_signature, is_signed, submit,
  new_transaction_impl, new_submit_request, new_submitted_transaction,
}

-- A transaction object is made of one, and differs from it in the signature at most.
pub record Extends (t u : TransactionImpl) : Type 0 where
  pub shared : IsShared u
  pub same_identity : u.signing_identity ≡ t.signing_identity
  pub same_channel : u.channel_name ≡ t.channel_name
  pub same_transaction :
      u.prepared_transaction.transaction_id ≡ t.prepared_transaction.transaction_id
  pub same_payload : u.envelope.payload ≡ t.envelope.payload
  pub same_result : u.result ≡ t.result

set_signature-Extends :
    (t : TransactionImpl) (b : Bytes) (u : TransactionImpl)
    → Extends t u
    → Extends t (set_signature b u)
unfolding set_signature
set_signature-Extends t b u e = record {
  shared = refl;
  same_identity = e.same_identity;
  same_channel = e.same_channel;
  same_transaction = e.same_transaction;
  same_payload = e.same_payload;
  same_result = e.same_result;
}

submit-Keeps :
    (pb : Protos) (client : GatewayClient) (options : Option CallOptions) (t : TransactionImpl)
    → Keeps (Extends t) (submit pb client options)
unfolding submit
submit-Keeps pb client options t =
    Keeps->>= (Keeps-sign_if_unsigned transaction_signable (set_signature-Extends t)) λ _.
      Keeps->>= (Keeps-gets (λ (s : TransactionImpl × History). s.0)) λ u.
        Keeps->>= (Keeps-on_history (Client.submit pb client (new_submit_request u) options))
          λ r. Keeps-of_result (ok (new_submitted_transaction pb u))

-- Whatever submitting a transaction ends with, the object's two references still are to one
-- envelope, and nothing but its signature has changed.
pub submit-Extends :
    (pb : Protos) (client : GatewayClient) (options : Option CallOptions) (t : TransactionImpl)
    (h : History)
    → IsShared t
    → Extends t (submit pb client options (t, h)).1.0
submit-Extends pb client options t h s = (submit-Keeps pb client options t).at t h (record {
  shared = s;
  same_identity = refl;
  same_channel = refl;
  same_transaction = refl;
  same_payload = refl;
  same_result = refl;
})

-- The constructor makes such an object, of the message that it is given.
pub new_transaction_impl-prepared :
    (pb : Protos) (node : Platform) (identity : SigningIdentity) (prepared : PreparedTransaction)
    (t : TransactionImpl)
    → new_transaction_impl pb node identity prepared ≡ ok t
    → t.prepared_transaction ≡ prepared
unfolding new_transaction_impl
new_transaction_impl-prepared pb node identity prepared t e = ground arith

-- The class keeps the laws of the interface.
pub transaction_signable-IsSignable : IsSignable transaction_signable
unfolding set_signature is_signed
transaction_signable-IsSignable = record {
  signature-set_signature = λ b s. refl;
  message-set_signature = λ b s. refl;
  identity-set_signature = λ b s. refl;
  is_signed-eq-ltb = λ s. refl;
}
