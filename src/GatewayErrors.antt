-- ===== src/GatewayErrors.antt =====
-- `newGatewayError` of node/src/gatewayerror.ts, and the conversion of a `string | Buffer`.
pub mod Details
use fabric_gateway.Base.{String, none, some, List, [], ◌∷◌, ◌++◌, Bytes}
use fabric_gateway.Js.{Value, text, bytes}
use fabric_gateway.Js.Buffer.{utf8}
use fabric_gateway.Effect.{Result, ok, then_result}
use fabric_gateway.Errors.{JsError, ErrorDetail, GatewayError}
use fabric_gateway.Protos.{Protos}
use fabric_gateway.Protos.Gateway.{AnyProto}

-- `Buffer.from(value)`
unfoldable pub buffer_from : Value → Bytes
buffer_from (text s) = utf8 s
buffer_from (bytes b) = b

-- A callback that may throw, run on each element in turn.
unfoldable pub traverse {ℓ κ μ} :
    {E : Type ℓ} {A : Type κ} {B : Type μ} → (A → Result E B) → List A → Result E (List B)
traverse f [] = ok []
traverse f (x ∷ xs) = then_result (f x) (λ y. then_result (traverse f xs) (λ ys. ok (y ∷ ys)))

unfoldable pub concat {ℓ} : {A : Type ℓ} → List (List A) → List A
concat [] = []
concat (xs ∷ xss) = xs ++ concat xss

abbrev pub details_key : String
details_key = "grpc-status-details-bin"

-- `err.metadata?.get('grpc-status-details-bin') || []`
abbrev pub status_details : JsError → List Value
status_details e = elim e.metadata [ none ↦ [] | some metadata ↦ metadata.get details_key ]

-- The callback of `flatMap`, and that of `map`.
unfoldable pub read_status : Protos → Value → Result JsError (List AnyProto)
read_status pb value =
    then_result (pb.status_proto.deserialize_binary (buffer_from value)) (λ s. ok s.details)

unfoldable pub read_detail : Protos → AnyProto → Result JsError ErrorDetail
read_detail pb detail =
    then_result (pb.error_detail_proto.deserialize_binary detail.value)
      λ e. ok (record { address = e.address; message = e.message; msp_id = e.msp_id })

unfoldable pub new_gateway_error : Protos → JsError → Result JsError GatewayError
new_gateway_error pb e = then_result (traverse (read_status pb) (status_details e)) λ lists.
    then_result (traverse (read_detail pb) (concat lists))
      λ details. ok (record { message = e.message; code = e.code; details = details; cause = e })
