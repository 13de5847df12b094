-- ===== src/Events/Streaming.antt =====
-- What asking for chaincode events asks of the signer and of the service
-- (node/src/chaincodeeventsrequest.ts and client.ts).
use fabric_gateway.Base.{refl, Option, Bytes}
use fabric_gateway.Effect.{pure}
use fabric_gateway.Errors.{CallOptions, Event, History}
use fabric_gateway.Protos.{Protos}
use fabric_gateway.Signing.{hash}
use fabric_gateway.Signing.Signable.{get_digest}
use fabric_gateway.Signing.Sent.{Sends, sign_if_unsigned-Sends}
use fabric_gateway.Client.{GatewayClient, chaincode_events, chaincode_events_method}
use fabric_gateway.Client.Asking.{chaincode_events-Asks}
use fabric_gateway.Events.{new_chaincode_events}
use fabric_gateway.Events.Request.{
  ChaincodeEventsRequestImpl, request_signable, set_signature, get_events,
}
use fabric_gateway.Events.Signing.{request_signable-IsSignable}

-- A `ChaincodeEvents` call, which opens a stream, with the request of `r` and this signature.
abbrev pub events_request_of : Protos → ChaincodeEventsRequestImpl → Bytes → CallOptions → Event
events_request_of pb r signature built =
    Event.stream_call chaincode_events_method
      (pb.signed_chaincode_events_request.serialize_binary
        (record { request = r.signed_request.request; signature = signature }))
      built

module _ (pb : Protos) (client : GatewayClient) (options : Option CallOptions)
    (r : ChaincodeEventsRequestImpl) (h : History) where
  -- Whatever the signer and the service answer, getting the events of a request calls no signer if
  -- it has a signature; else it calls the signer once, with the hash of the request's bytes, and
  -- keeps its answer as the request's signature. If the signer throws, so does the method, and no
  -- stream is asked for. Otherwise at most one stream is asked for, and exactly one where the
  -- method returns, with the bytes and the signature of the request: the one from before, or the
  -- answer.
  pub get_events-Sends :
      Sends
        (λ (q : ChaincodeEventsRequestImpl). q.signed_request.signature)
        r.signed_request.signature
        r.signing_identity.signer
        (r.signing_identity.hash r.signed_request.request)
        (events_request_of pb r)
        h
        (get_events pb client options (r, h))
  unfolding get_events get_digest hash set_signature
  get_events-Sends =
      sign_if_unsigned-Sends request_signable request_signable-IsSignable
        (λ q. chaincode_events pb client q.signed_request options)
        (λ q responses. pure (new_chaincode_events responses)) (events_request_of pb r) r h
        (λ q responses s. refl) (λ l. chaincode_events-Asks pb client _ options l)
        (λ b l. chaincode_events-Asks pb client _ options l)
