-- ===== src/Client/Asking.antt =====
-- Each call of node/src/client.ts makes one request, unless its options cannot be built.
use fabric_gateway.Base.{◌≡◌, refl, ap, ◌∙◌, inl, inr, String, Option, none, some, ◌∷◌}
use fabric_gateway.Effect.{Result, ok, err, continue_with, ◌>>=◌}
use fabric_gateway.Errors.{JsError, GatewayError, Thrown, CallOptions, Event, History, M}
use fabric_gateway.Protos.{Protos, Wire}
use fabric_gateway.Protos.Gateway.{SignedChaincodeEventsRequest}
use fabric_gateway.Signing.Sent.{Asks}
use fabric_gateway.Client.{
  OptionsSupplier, GatewayClient, build_options, unary_call, chaincode_events,
  chaincode_events_method,
}

build_options-same :
    (supplier : Option OptionsSupplier) (options : Option CallOptions) (h : History)
    → (build_options supplier options h).1 ≡ h
unfolding build_options
build_options-same none options h = refl
build_options-same (some supplier) options h = refl

module _ {A : Type 0} (request : CallOptions → Event) (f : CallOptions → M A)
    (asks : (built : CallOptions) (h : History) → (f built h).1 ≡ request built ∷ h) where
  of_built :
      (h : History) (x : Result Thrown CallOptions × History)
      → x.1 ≡ h
      → Asks request h (continue_with f x)
  of_built h (ok built, h') e = inr (built, asks built h' ∙ ap (λ l. request built ∷ l) e)
  of_built h (err z, h') e = inl (z, refl, e)

  then-Asks :
      (supplier : Option OptionsSupplier) (options : Option CallOptions) (h : History)
      → Asks request h ((build_options supplier options >>= f) h)
  then-Asks supplier options h =
      of_built h (build_options supplier options h) (build_options-same supplier options h)

pub unary_call-Asks :
    (pb : Protos) (c : GatewayClient) {A B : Type 0} (method : String) (request : Wire A)
    (response : Wire B) (supplier : Option OptionsSupplier) (argument : A)
    (options : Option CallOptions) (wrap : GatewayError → Result JsError Thrown) (h : History)
    → Asks
        (λ built. Event.unary_call method (request.serialize_binary argument) built)
        h
        (unary_call pb c method request response supplier argument options wrap h)
unfolding unary_call
unary_call-Asks pb c method request response supplier argument options wrap h =
    then-Asks (λ built. Event.unary_call method (request.serialize_binary argument) built) _
      (λ built l. refl) supplier options h

pub chaincode_events-Asks :
    (pb : Protos) (c : GatewayClient) (request : SignedChaincodeEventsRequest)
    (options : Option CallOptions) (h : History)
    → Asks
        (λ built.
          Event.stream_call chaincode_events_method
            (pb.signed_chaincode_events_request.serialize_binary request)
            built)
        h
        (chaincode_events pb c request options h)
unfolding chaincode_events
chaincode_events-Asks pb c request options h =
    then-Asks
      (λ built.
        Event.stream_call chaincode_events_method
          (pb.signed_chaincode_events_request.serialize_binary request) built)
      _ (λ built l. refl) c.default_options.chaincode_events_options options h
