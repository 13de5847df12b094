-- ===== src/Errors.antt =====
-- What the program throws (node/src/gatewayerror.ts, endorseerror.ts, submiterror.ts,
-- commitstatuserror.ts, commiterror.ts) and the errors of other code that it catches.
use fabric_gateway.Base.{ℕ, String, Option, none, some, List, Bool, true, Bytes}
use fabric_gateway.Js.{Value, JsValue}
use fabric_gateway.Js.Object.{Object}
use fabric_gateway.Effect.{Result, ok, err, Step}

-- gRPC metadata, read by key: `metadata.get(key)`.
pub record Metadata : Type 0 where
  pub get : String → List Value

-- An error object: one made by `new Error(message)`, or one thrown by code outside the program, as
-- far as the program asks about it. `metadata` is present where it is an instance of `Metadata`.
pub record JsError : Type 0 where
  pub message : String
  pub code : JsValue
  pub details : JsValue
  pub metadata : Option Metadata
  pub is_error : Bool

-- `new Error(message)`
abbrev pub new_error : String → JsError
new_error message = record {
  message = message;
  code = JsValue.undefined;
  details = JsValue.undefined;
  metadata = none;
  is_error = true;
}

pub record ErrorDetail : Type 0 where
  pub address : String
  pub message : String
  pub msp_id : String

pub record GatewayError : Type 0 where
  pub message : String
  pub code : JsValue
  pub details : List ErrorDetail
  pub cause : JsError

pub record CommitError : Type 0 where
  pub message : String
  pub code : ℕ
  pub transaction_id : String

-- What a caller may see thrown: each class with what it adds. `suppressed` is the error of the
-- envelope parser, with the errors that it collected. `uncaught` is an error that escapes from a
-- callback which gRPC runs: nothing rejects the promise then, so its caller never continues.
pub data Thrown : Type 0 where
  error : JsError → Thrown
  suppressed : JsError → List JsError → Thrown
  gateway_error : GatewayError → Thrown
  endorse_error submit_error commit_status_error : GatewayError → String → Thrown
  commit_error : CommitError → Thrown
  uncaught : JsError → Thrown

-- The constructors of the three classes that add the transaction's identifier to a gateway error.
abbrev pub new_endorse_error : GatewayError → String → Thrown
new_endorse_error e transaction_id = Thrown.endorse_error e transaction_id

abbrev pub new_submit_error : GatewayError → String → Thrown
new_submit_error e transaction_id = Thrown.submit_error e transaction_id

abbrev pub new_commit_status_error : GatewayError → String → Thrown
new_commit_status_error e transaction_id = Thrown.commit_status_error e transaction_id

-- gRPC call options, an object.
abbrev pub CallOptions : Type 0
CallOptions = Object JsValue

-- What the program has asked of code outside it, as the calls made so far, the latest first: bytes
-- of randomness, the time, a signature of a digest, a unary call or a server stream with its
-- method, serialised request and options, and the cancelling of a stream.
pub data Event : Type 0 where
  random_bytes : ℕ → Event
  now : Event
  sign : Bytes → Event
  unary_call stream_call : String → Bytes → CallOptions → Event
  cancel : Event

abbrev pub History : Type 0
History = List Event

-- A call of the program, and a method of an object of type `T`.
abbrev pub M : Type 0 → Type 0
M A = Step Thrown History A

abbrev pub Method : Type 0 → Type 0 → Type 0
Method T A = Step Thrown (T × History) A

abbrev pub throw_error {ℓ} : {A : Type ℓ} → String → Result JsError A
throw_error message = err (new_error message)

-- `assertDefined` of node/src/gateway.ts
unfoldable pub assert_defined : {A : Type 0} → Option A → String → Result JsError A
assert_defined none message = throw_error message
assert_defined (some a) message = ok a
