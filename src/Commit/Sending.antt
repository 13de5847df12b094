-- ===== src/Commit/Sending.antt =====
-- What asking for the status of a commit asks of the signer and of the service.
use fabric_gateway.Base.{refl, Option, Bytes}
use fabric_gateway.Effect.{pure}
use fabric_gateway.Errors.{CallOptions, Event, History}
use fabric_gateway.Protos.{Protos}
use fabric_gateway.Signing.{hash}
use fabric_gateway.Signing.Signable.{get_digest}
use fabric_gateway.Signing.Sent.{Sends, sign_if_unsigned-Sends}
use fabric_gateway.Client.{GatewayClient, commit_status, commit_status_method}
use fabric_gateway.Client.Asking.{unary_call-Asks}
use fabric_gateway.Commit.{CommitImpl, commit_signable, set_signature, get_status, new_status}
use fabric_gateway.Commit.Signing.{commit_signable-IsSignable}

-- A `CommitStatus` call with the request of `c` and this signature.
abbrev pub status_request_of : Protos → CommitImpl → Bytes → CallOptions → Event
status_request_of pb c signature built =
    Event.unary_call commit_status_method
      (pb.signed_commit_status_request.serialize_binary
        (record { request = c.signed_request.request; signature = signature }))
      built

module _ (pb : Protos) (client : GatewayClient) (options : Option CallOptions) (c : CommitImpl)
    (h : History) where
  -- Whatever the signer and the service answer, asking for the status of a commit calls no signer
  -- if its request has a signature; else it calls the signer once, with the hash of the request's
  -- bytes, and keeps its answer as the request's signature. If the signer throws, so does the
  -- method, and nothing is sent. Otherwise at most one call is made, and exactly one where the
  -- method returns, with the bytes and the signature of the request: the one from before, or the
  -- answer.
  pub get_status-Sends :
      Sends
        (λ (d : CommitImpl). d.signed_request.signature)
        c.signed_request.signature
        c.signing_identity.signer
        (c.signing_identity.hash c.signed_request.request)
        (status_request_of pb c)
        h
        (get_status pb client options (c, h))
  unfolding get_status commit_status get_digest hash set_signature
  get_status-Sends =
      sign_if_unsigned-Sends commit_signable commit_signable-IsSignable
        (λ d. commit_status pb client d.signed_request options)
        (λ d response. pure (new_status pb d response)) (status_request_of pb c) c h
        (λ d response s. refl) (λ l. unary_call-Asks pb client _ _ _ _ _ options _ l)
        (λ b l. unary_call-Asks pb client _ _ _ _ _ options _ l)
