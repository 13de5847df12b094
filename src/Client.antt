-- ===== src/Client.antt =====
-- node/src/client.ts: the calls of the gateway service over a gRPC connection. The connection is a
-- parameter; it decides from the history how each call ends. A call that gRPC never answers is
-- left out.
mod Grpc
pub mod Calls
pub mod Asking
pub mod Options
pub mod Replies
pub mod Rejections
pub use Grpc.*
use Prim.Native.String.{◌++◌}
use fabric_gateway.Base.{ℕ, String, Option, none, some, [], ◌∷◌, Bytes, Bool, true, false, ◌&&◌}
use fabric_gateway.Js.{JsValue, undefined, number, str, other}
use fabric_gateway.Js.Object.{assign}
use fabric_gateway.Effect.{Result, ok, err, then_result, ◌>>=◌}
use fabric_gateway.Errors.{
  new_endorse_error, new_submit_error, new_commit_status_error, JsError, new_error, GatewayError,
  Thrown, CallOptions, Event, History, M,
}
use fabric_gateway.GatewayErrors.{new_gateway_error}
use fabric_gateway.Protos.{Protos, Wire}
use fabric_gateway.Protos.Gateway.{
  EvaluateRequest, EvaluateResponse, EndorseRequest, EndorseResponse, SubmitRequest, SubmitResponse,
  CommitStatusResponse, SignedCommitStatusRequest, SignedChaincodeEventsRequest,
  ChaincodeEventsResponse,
}

-- `GatewayClientImpl`
pub record GatewayClient : Type 1 where
  pub grpc : GatewayGrpcClient
  pub default_options : DefaultCallOptions

-- `newGatewayClient`. `Object.assign({}, defaultOptions)` copies the suppliers.
unfoldable pub new_gateway_client : GatewayGrpcClient → DefaultCallOptions → GatewayClient
new_gateway_client grpc defaults = record { grpc = grpc; default_options = defaults }

abbrev assign_option : CallOptions → Option CallOptions → CallOptions
assign_option target none = target
assign_option target (some source) = assign target source

unfoldable pub build_options : Option OptionsSupplier → Option CallOptions → M CallOptions
build_options none options h = (ok (assign_option [] options), h)
build_options (some supplier) options h =
    (then_result (supplier h) (λ defaults. ok (assign_option (assign [] defaults) options)), h)

-- An error that escapes from the callback.
abbrev escaping : {A : Type 0} → Result JsError Thrown → Result Thrown A
escaping (ok reason) = err reason
escaping (err x) = err (Thrown.uncaught x)

abbrev no_result : Thrown
no_result = Thrown.error (new_error "No result returned")

unfoldable pub new_unary_callback :
    {A : Type 0}
    → Protos
    → (GatewayError → Result JsError Thrown)
    → Option JsError
    → Option A
    → Result Thrown A
new_unary_callback pb wrap (some e) v = escaping (then_result (new_gateway_error pb e) wrap)
new_unary_callback pb wrap none none = err no_result
new_unary_callback pb wrap none (some v) = ok v

abbrev settle :
    {A : Type 0} → Protos → (GatewayError → Result JsError Thrown) → UnaryReply A → Result Thrown A
settle pb wrap (threw x) = err x
settle pb wrap (called_back e v) = new_unary_callback pb wrap e v

-- What gRPC answers to a request of the client's connection.
abbrev pub reply_to :
    GatewayClient
    → {A B : Type 0} → History
    → String
    → Wire A
    → Wire B
    → A
    → CallOptions
    → UnaryReply B
reply_to c {A} {B} h method request response argument built =
    c.grpc.make_unary_request A B h method request.serialize_binary response.deserialize_binary
      argument built

module _ (pb : Protos) (c : GatewayClient) where
  -- `new Promise((resolve, reject) => this.#client.makeUnaryRequest(...))`
  unfoldable pub unary_call :
      {A B : Type 0}
      → String
      → Wire A
      → Wire B
      → Option OptionsSupplier
      → A
      → Option CallOptions
      → (GatewayError → Result JsError Thrown)
      → M B
  unary_call method request response supplier argument options wrap = do
    built ← build_options supplier options
    λ h. (
      settle pb wrap (reply_to c h method request response argument built),
      Event.unary_call method (request.serialize_binary argument) built ∷ h,
    )

  unfoldable pub evaluate : EvaluateRequest → Option CallOptions → M EvaluateResponse
  evaluate request options =
      unary_call evaluate_method pb.evaluate_request pb.evaluate_response
        c.default_options.evaluate_options request options (λ e. ok (Thrown.gateway_error e))

  unfoldable pub endorse : EndorseRequest → Option CallOptions → M EndorseResponse
  endorse request options =
      unary_call endorse_method pb.endorse_request pb.endorse_response
        c.default_options.endorse_options request options
        (λ e. ok (new_endorse_error e request.transaction_id))

  unfoldable pub submit : SubmitRequest → Option CallOptions → M SubmitResponse
  submit request options =
      unary_call submit_method pb.submit_request pb.submit_response c.default_options.submit_options
        request options (λ e. ok (new_submit_error e request.transaction_id))

  unfoldable pub commit_status :
      SignedCommitStatusRequest → Option CallOptions → M CommitStatusResponse
  commit_status request options =
      unary_call commit_status_method pb.signed_commit_status_request pb.commit_status_response
        c.default_options.commit_status_options request options
        (λ e.
          then_result (pb.commit_status_request.deserialize_binary request.request)
            λ r. ok (new_commit_status_error e r.transaction_id))

abbrev is_number : JsValue → Bool
is_number (number _) = true
is_number undefined = false
is_number (str _) = false
is_number other = false

abbrev is_string : JsValue → Bool
is_string (str _) = true
is_string undefined = false
is_string (number _) = false
is_string other = false

abbrev is_present : {A : Type 0} → Option A → Bool
is_present none = false
is_present (some _) = true

-- `isServiceError`
unfoldable pub is_service_error : JsError → Bool
is_service_error e = is_number e.code && is_string e.details && is_present e.metadata && e.is_error

-- The `catch` of `#makeServerStreamRequest` and of `wrapAsyncIterator`.
unfoldable pub convert_error : Protos → JsError → Thrown
convert_error pb e = elim (is_service_error e) [
  | true ↦ elim (new_gateway_error pb e) [ ok g ↦ Thrown.gateway_error g | err x ↦ Thrown.error x ]
  | false ↦ Thrown.error e
]

-- The `next` of `wrapAsyncIterator`.
abbrev wrap_read : {A : Type 0} → Protos → Read JsError A → Read Thrown A
wrap_read pb (value a) = value a
wrap_read pb done = done
wrap_read pb (failed e) = failed (convert_error pb e)

unfoldable pub wrap_async_iterator : {A : Type 0} → Protos → Reads JsError A → Reads Thrown A
wrap_async_iterator pb reads n = wrap_read pb (reads n)

-- `CloseableAsyncIterable`
pub record CloseableAsyncIterable (A : Type 0) : Type 0 where
  pub reads : Reads Thrown A
  pub close : M (Unit {0})

abbrev pub stream_of :
    {A : Type 0}
    → Protos
    → Result JsError (Reads JsError A)
    → Result Thrown (CloseableAsyncIterable A)
stream_of pb (ok reads) =
    ok (record { reads = wrap_async_iterator pb reads; close = λ h. (ok tt, Event.cancel ∷ h) })
stream_of pb (err e) = err (convert_error pb e)

module _ (pb : Protos) (c : GatewayClient) where
  -- The `try` of `#makeServerStreamRequest`, and its `catch`.
  abbrev pub open_stream :
      SignedChaincodeEventsRequest
      → CallOptions
      → M (CloseableAsyncIterable ChaincodeEventsResponse)
  open_stream request built h = (
    stream_of pb (
        c.grpc.make_server_stream_request _ _ h chaincode_events_method
          pb.signed_chaincode_events_request.serialize_binary
          pb.chaincode_events_response.deserialize_binary request built),
    Event.stream_call chaincode_events_method
          (pb.signed_chaincode_events_request.serialize_binary request) built
        ∷ h,
  )

  -- `chaincodeEvents`, with `#makeServerStreamRequest`
  unfoldable pub chaincode_events :
      SignedChaincodeEventsRequest
      → Option CallOptions
      → M (CloseableAsyncIterable ChaincodeEventsResponse)
  chaincode_events request options = do
    built ← build_options c.default_options.chaincode_events_options options
    open_stream request built
