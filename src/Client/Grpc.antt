-- ===== src/Client/Grpc.antt =====
-- The gRPC connection that node/src/client.ts calls, and the names of the methods.
use Prim.Native.String.{◌++◌}
use fabric_gateway.Base.{ℕ, String, Option, Bytes}
use fabric_gateway.Effect.{Result}
use fabric_gateway.Errors.{JsError, Thrown, CallOptions, History}

abbrev service_path : String
service_path = "/gateway.Gateway/"

abbrev pub evaluate_method : String
evaluate_method = service_path ++ "Evaluate"

abbrev pub endorse_method : String
endorse_method = service_path ++ "Endorse"

abbrev pub submit_method : String
submit_method = service_path ++ "Submit"

abbrev pub commit_status_method : String
commit_status_method = service_path ++ "CommitStatus"

abbrev pub chaincode_events_method : String
chaincode_events_method = service_path ++ "ChaincodeEvents"

-- How `makeUnaryRequest` answers: it throws, or it calls back with an error and a value, each of
-- which may be missing.
pub data UnaryReply (A : Type 0) : Type 0 where
  threw : Thrown → UnaryReply A
  called_back : Option JsError → Option A → UnaryReply A

-- What the next read of an async iterable gives.
pub data Read (E A : Type 0) : Type 0 where
  value : A → Read E A
  done : Read E A
  failed : E → Read E A

-- The reads of an async iterable, by number.
abbrev pub Reads : Type 0 → Type 0 → Type 0
Reads E A = ℕ → Read E A

-- `GatewayGrpcClient`. A stream request throws or gives the reads of a server stream, whose errors
-- are of any kind.
pub record GatewayGrpcClient : Type 1 where
  pub make_unary_request :
      (A B : Type 0)
      → History
      → String
      → (A → Bytes)
      → (Bytes → Result JsError B)
      → A
      → CallOptions
      → UnaryReply B
  pub make_server_stream_request :
      (A B : Type 0)
      → History
      → String
      → (A → Bytes)
      → (Bytes → Result JsError B)
      → A
      → CallOptions
      → Result JsError (Reads JsError B)

-- A supplier of default options: application code, which may throw.
abbrev pub OptionsSupplier : Type 0
OptionsSupplier = History → Result Thrown CallOptions

pub record DefaultCallOptions : Type 0 where
  pub evaluate_options : Option OptionsSupplier
  pub endorse_options : Option OptionsSupplier
  pub submit_options : Option OptionsSupplier
  pub commit_status_options : Option OptionsSupplier
  pub chaincode_events_options : Option OptionsSupplier
