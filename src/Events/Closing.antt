-- ===== src/Events/Closing.antt =====
-- Closing the events that a request opened (node/src/chaincodeeventsrequest.ts, client.ts and
-- chaincodeevent.ts), and the unary calls of opening them.
use fabric_gateway.Base.{◌≡◌, refl, sym, ap, ◌∙◌, Option, [], ◌∷◌}
use fabric_gateway.Effect.{Result, ok, err, continue_with}
use fabric_gateway.Effect.Made.{
  calls, method_calls, Made-quiet, Makes, Makes->>=, Makes-gets, Makes-of_result, Makes-on_history,
}
use fabric_gateway.Errors.{JsError, Thrown, CallOptions, Event, History, M}
use fabric_gateway.Protos.{Protos}
use fabric_gateway.Protos.Gateway.{ChaincodeEventsResponse, SignedChaincodeEventsRequest}
use fabric_gateway.Signing.Calls.{sign_if_unsigned-Makes}
use fabric_gateway.Client.Calls.{build_options-Makes}
use fabric_gateway.Signing.Signable.{sign_if_unsigned}
use fabric_gateway.Client.{
  GatewayClient, open_stream, chaincode_events_method, Reads, CloseableAsyncIterable, build_options,
  chaincode_events, stream_of,
}
use fabric_gateway.Events.{ChaincodeEvents, new_chaincode_events}
use fabric_gateway.Events.Request.{ChaincodeEventsRequestImpl, request_signable, get_events}

-- Closing cancels the stream, and does nothing else.
abbrev pub Cancels : M (Unit {0}) → Type 0
Cancels close = close ≡ (λ h. (ok tt, Event.cancel ∷ h))

-- What is returned has a `close` that cancels.
abbrev pub ReturnsEvents : {S : Type 0} → Result Thrown ChaincodeEvents × S → Type 0
ReturnsEvents x = (events : ChaincodeEvents) → x.0 ≡ ok events → Cancels events.close

events_after :
    {S A : Type 0} (f : A → S → Result Thrown ChaincodeEvents × S) (x : Result Thrown A × S)
    → ((a : A) (s : S) → x ≡ (ok a, s) → ReturnsEvents (f a s))
    → ReturnsEvents (continue_with f x)
events_after f (ok a, s) k = k a s refl
events_after f (err e, s) k = λ events r. cc

abbrev close_of_stream :
    Result Thrown (CloseableAsyncIterable ChaincodeEventsResponse) → M (Unit {0})
close_of_stream (ok stream) = stream.close
close_of_stream (err e) = λ h. (ok tt, h)

abbrev close_of : Result Thrown ChaincodeEvents → M (Unit {0})
close_of (ok events) = events.close
close_of (err e) = λ h. (ok tt, h)

module _ (pb : Protos) (client : GatewayClient) where
  of_stream :
      (x : Result JsError (Reads JsError ChaincodeEventsResponse))
      (stream : CloseableAsyncIterable ChaincodeEventsResponse)
      → stream_of pb x ≡ ok stream
      → Cancels stream.close
  of_stream (ok reads) stream e = sym (ap close_of_stream e)
  of_stream (err x) stream e = cc

  of_built :
      (request : SignedChaincodeEventsRequest) (x : Result Thrown CallOptions × History)
      (stream : CloseableAsyncIterable ChaincodeEventsResponse) (h' : History)
      → continue_with (open_stream pb client request) x ≡ (ok stream, h')
      → Cancels stream.close
  of_built request (ok built, h) stream h' e =
      of_stream
        (client.grpc.make_server_stream_request _ _ h chaincode_events_method
          pb.signed_chaincode_events_request.serialize_binary
          pb.chaincode_events_response.deserialize_binary request built)
        stream (ap (λ y. y.0) e)
  of_built request (err x, h) stream h' e = cc

  opened :
      (request : SignedChaincodeEventsRequest) (options : Option CallOptions) (h h' : History)
      (stream : CloseableAsyncIterable ChaincodeEventsResponse)
      → chaincode_events pb client request options h ≡ (ok stream, h')
      → Cancels stream.close
  unfolding chaincode_events
  opened request options h h' stream e =
      of_built request (build_options client.default_options.chaincode_events_options options h)
        stream h' e

  lifted :
      (r : ChaincodeEventsRequestImpl)
      (x : Result Thrown (CloseableAsyncIterable ChaincodeEventsResponse) × History)
      → ((stream : CloseableAsyncIterable ChaincodeEventsResponse) (h : History)
          → x ≡ (ok stream, h)
          → Cancels stream.close)
      → ReturnsEvents {S = ChaincodeEventsRequestImpl × History}
          (continue_with (λ responses s. (ok (new_chaincode_events responses), s)) (x.0, (r, x.1)))
  unfolding new_chaincode_events
  lifted r (ok stream, h) k = λ events e. sym (ap close_of e) ∙ k stream h refl
  lifted r (err z, h) k = λ events e. cc

  -- The events of a request have a `close` that cancels their stream.
  pub get_events-ReturnsEvents :
      (options : Option CallOptions) (s : ChaincodeEventsRequestImpl × History)
      → ReturnsEvents (get_events pb client options s)
  unfolding get_events
  get_events-ReturnsEvents options s = events_after _ (sign_if_unsigned request_signable s) λ _ t e.
      lifted t.0 (chaincode_events pb client t.0.signed_request options t.1)
        (λ stream h. opened t.0.signed_request options t.1 h stream)

  quiet_stream :
      (request : SignedChaincodeEventsRequest) (built : CallOptions)
      → Makes calls [] (open_stream pb client request built)
  quiet_stream request built = record {
    at = λ h.
        Made-quiet calls h (open_stream pb client request built h).1
          (open_stream pb client request built h).0 refl;
  }

  chaincode_events-Makes :
      (request : SignedChaincodeEventsRequest) (options : Option CallOptions)
      → Makes calls [] (chaincode_events pb client request options)
  unfolding chaincode_events
  chaincode_events-Makes request options =
      Makes->>= [] [] (build_options-Makes client.default_options.chaincode_events_options options)
        (quiet_stream request)

  -- Opening them makes no unary call.
  pub get_events-Makes :
      (options : Option CallOptions) → Makes method_calls [] (get_events pb client options)
  unfolding get_events
  get_events-Makes options = Makes->>= [] [] (sign_if_unsigned-Makes request_signable) λ _.
      Makes->>= [] [] (Makes-gets (λ (s : ChaincodeEventsRequestImpl × History). s.0)) λ r.
        Makes->>= [] [] (Makes-on_history (chaincode_events-Makes r.signed_request options))
          λ responses. Makes-of_result (ok (new_chaincode_events responses))
