-- ===== src/TransactionParser.antt =====
-- node/src/transactionparser.ts: the channel name and the result inside a transaction envelope.
pub mod First
pub mod Endorsed
use Prim.Native.String.{◌++◌}
use mathlib.Core.List.{◌++◌ as append}
use fabric_gateway.Base.{String, List, [], ◌∷◌, Bytes}
use fabric_gateway.Effect.{Result, ok, err, then_result, map_err}
use fabric_gateway.Errors.{JsError, new_error, Thrown, assert_defined}
use fabric_gateway.Platform.{Platform}
use fabric_gateway.Protos.{Protos}
use fabric_gateway.Protos.Peer.{Envelope, Header, Payload, TransactionAction}

-- What `parseTransactionEnvelope` returns.
pub record ParsedEnvelope : Type 0 where
  pub channel_name : String
  pub result : Bytes

module _ (pb : Protos) (node : Platform) where
  unfoldable pub parse_result_from_transaction_action : TransactionAction → Result JsError Bytes
  unfolding assert_defined
  parse_result_from_transaction_action a =
      then_result (pb.chaincode_action_payload.deserialize_binary a.payload) λ action_payload.
        then_result (assert_defined action_payload.action "Missing endorsed action") λ endorsed.
          then_result
            (pb.proposal_response_payload.deserialize_binary endorsed.proposal_response_payload)
            λ response_payload.
              then_result (pb.chaincode_action.deserialize_binary response_payload.extension)
                λ action.
                  then_result (assert_defined action.response "Missing chaincode response")
                    λ response. ok response.payload

  unfoldable pub no_proposal_response : List JsError → Thrown
  no_proposal_response errors =
      Thrown.suppressed (new_error ("No proposal response found: " ++ node.inspect errors)) errors

  -- The loop over the actions, with the errors pushed so far.
  unfoldable pub parse_first : List TransactionAction → List JsError → Result Thrown Bytes
  unfolding no_proposal_response
  parse_first [] errors = err (no_proposal_response errors)
  parse_first (a ∷ actions) errors = elim (parse_result_from_transaction_action a) [
    | ok result ↦ ok result
    | err e ↦ parse_first actions (append errors (e ∷ []))
  ]

  unfoldable pub parse_result_from_payload : Payload → Result Thrown Bytes
  parse_result_from_payload payload =
      then_result
        (map_err Thrown.error (pb.transaction_proto.deserialize_binary payload.data_bytes))
        λ transaction. parse_first transaction.actions []

  unfoldable pub parse_channel_name_from_header : Header → Result Thrown String
  parse_channel_name_from_header header =
      then_result
        (map_err Thrown.error (pb.channel_header.deserialize_binary header.channel_header))
        λ channel_header. ok channel_header.channel_id

  unfoldable pub parse_transaction_envelope : Envelope → Result Thrown ParsedEnvelope
  unfolding assert_defined
  parse_transaction_envelope envelope =
      then_result (map_err Thrown.error (pb.payload.deserialize_binary envelope.payload)) λ payload.
        then_result (map_err Thrown.error (assert_defined payload.header "Missing header"))
          λ header. then_result (parse_channel_name_from_header header) λ channel_name.
            then_result (parse_result_from_payload payload)
              λ result. ok (record { channel_name = channel_name; result = result })
