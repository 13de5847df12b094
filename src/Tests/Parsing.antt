-- ===== src/Tests/Parsing.antt =====
-- The theorems about reading an envelope at concrete inputs.
use fabric_gateway.Base.{◌≡◌, refl, none, List, [], ◌∷◌, Bytes}
use fabric_gateway.Effect.{ok, err}
use fabric_gateway.Errors.{JsError, new_error}
use fabric_gateway.Protos.{RoundTrips}
use fabric_gateway.Protos.Peer.{Payload, TransactionAction, TransactionProto}
use fabric_gateway.TransactionParser.{
  parse_result_from_payload, parse_transaction_envelope, no_proposal_response,
}
use fabric_gateway.TransactionParser.First.{none_left, fails, parse_result_first, parse_result_none}
use fabric_gateway.TransactionParser.Endorsed.{action_of, envelope_of, parse-envelope_of}
use fabric_gateway.Tests.Codec.{wire-IsRoundTrip}
use fabric_gateway.Tests.Wires.{protos}
use fabric_gateway.Tests.Run.{run}
use fabric_gateway.Tests.World.{node, channel_header}

pub protos-RoundTrips : RoundTrips protos
protos-RoundTrips = record {
  signature_header = wire-IsRoundTrip _;
  channel_header = wire-IsRoundTrip _;
  header = wire-IsRoundTrip _;
  payload = wire-IsRoundTrip _;
  chaincode_header_extension = wire-IsRoundTrip _;
  chaincode_invocation_spec = wire-IsRoundTrip _;
  proposal_proto = wire-IsRoundTrip _;
  transaction_proto = wire-IsRoundTrip _;
  chaincode_action_payload = wire-IsRoundTrip _;
  proposal_response_payload = wire-IsRoundTrip _;
  chaincode_action = wire-IsRoundTrip _;
  proposed_transaction = wire-IsRoundTrip _;
  prepared_transaction = wire-IsRoundTrip _;
  commit_status_request = wire-IsRoundTrip _;
  signed_commit_status_request = wire-IsRoundTrip _;
  status_proto = wire-IsRoundTrip _;
  error_detail_proto = wire-IsRoundTrip _;
}

-- An action whose payload is not a message.
abbrev unreadable : TransactionAction
unreadable = record { payload = [] }

abbrev unreadable_error : JsError
unreadable_error = new_error "malformed message"

abbrev transaction_of : List TransactionAction → TransactionProto
transaction_of actions = record { actions = actions }

abbrev payload_of : List TransactionAction → Payload
payload_of actions = record {
  header = none;
  data_bytes = protos.transaction_proto.serialize_binary (transaction_of actions);
}

abbrev result : Bytes
result = 42 ∷ []

abbrev readable : TransactionAction
readable = action_of protos result

parse_result_first_example :
    parse_result_from_payload protos node (payload_of (unreadable ∷ readable ∷ unreadable ∷ []))
    ≡ ok (42 ∷ [])
unfolding run
parse_result_first_example =
    parse_result_first protos node (payload_of (unreadable ∷ readable ∷ unreadable ∷ []))
      (transaction_of (unreadable ∷ readable ∷ unreadable ∷ [])) (unreadable ∷ []) (unreadable ∷ [])
      readable (unreadable_error ∷ []) result refl refl (fails refl none_left) refl

parse_result_none_example :
    parse_result_from_payload protos node (payload_of (unreadable ∷ unreadable ∷ []))
    ≡ err (no_proposal_response protos node (unreadable_error ∷ unreadable_error ∷ []))
unfolding run
parse_result_none_example =
    parse_result_none protos node (payload_of (unreadable ∷ unreadable ∷ []))
      (transaction_of (unreadable ∷ unreadable ∷ [])) (unreadable_error ∷ unreadable_error ∷ [])
      refl (fails refl (fails refl none_left))

parse-envelope_of_example :
    parse_transaction_envelope protos node
      (envelope_of protos channel_header [] (42 ∷ []) (unreadable ∷ []))
    ≡ ok (record { channel_name = "mychannel"; result = 42 ∷ [] })
unfolding run
parse-envelope_of_example =
    parse-envelope_of protos protos-RoundTrips node channel_header [] (42 ∷ []) (unreadable ∷ [])
