-- ===== src/Tests/Streaming.antt =====
-- The theorem about asking for events at a concrete input: a stream of two responses, which then fails.
use fabric_gateway.Base.{zero, suc, none, some, [], ◌∷◌, Bytes}
use fabric_gateway.Effect.{Result, ok, err}
use fabric_gateway.Errors.{JsError}
use fabric_gateway.Protos.Gateway.{ChaincodeEventProto, ChaincodeEventsResponse}
use fabric_gateway.Signing.Sent.{Sends}
use fabric_gateway.Client.{Read, value, failed, Reads, GatewayClient}
use fabric_gateway.Js.Number.{ℤ}
use fabric_gateway.Events.Streaming.{events_request_of, get_events-Sends}
use fabric_gateway.Events.Request.{ChaincodeEventsRequestImpl, build, get_events}
use fabric_gateway.Tests.Wires.{protos}
use fabric_gateway.Tests.Run.{run}
use fabric_gateway.Tests.World.{identity, rejection, rejecting}
use fabric_gateway.Tests.Service

abbrev event : ChaincodeEventProto
event = record { chaincode_id = "basic"; tx_id = "a1"; event_name = "made"; payload = 3 ∷ [] }

abbrev first : ChaincodeEventsResponse
first = record { events = event ∷ event ∷ []; block_number = 5 }

abbrev second : ChaincodeEventsResponse
second = record { events = event ∷ []; block_number = 7 }

abbrev of_read : {B : Type 0} → Result JsError B → Read JsError B
of_read (ok b) = value b
of_read (err e) = failed e

abbrev reads_by : {B : Type 0} → (Bytes → Result JsError B) → Reads JsError B
reads_by deserialize zero = of_read (deserialize (Service.chaincode_events_response.put first))
reads_by deserialize (suc zero) =
    of_read (deserialize (Service.chaincode_events_response.put second))
reads_by deserialize (suc (suc n)) = failed rejection

abbrev streaming : GatewayClient
streaming = record {
  grpc = record {
    make_unary_request = rejecting.grpc.make_unary_request;
    make_server_stream_request =
        λ A B h method serialize deserialize argument options. ok (reads_by deserialize);
  };
  default_options = rejecting.default_options;
}

abbrev request : ChaincodeEventsRequestImpl
request = build protos (record {
  start_block = some (ℤ.pos 5);
  signing_identity = identity;
  channel_name = "mychannel";
  chaincode_name = "basic";
})

get_events-Sends_example :
    Sends
      (λ (r : ChaincodeEventsRequestImpl). r.signed_request.signature)
      []
      identity.signer
      (identity.hash request.signed_request.request)
      (events_request_of protos request)
      []
      (get_events protos streaming none (request, []))
unfolding run
get_events-Sends_example = get_events-Sends protos streaming none request []
