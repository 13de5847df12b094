-- ===== src/Tests/World.antt =====
-- A concrete world for the tests: a platform, a signing identity, a gRPC connection to a gateway
-- that answers each method, and a second one that rejects each.
use text.Mathlib.Text.{◌==◌}
use fabric_gateway.Base.{String, none, some, [], ◌∷◌, Bytes, length, if◌then◌else◌, true}
use fabric_gateway.Js.{Value, JsValue}
use fabric_gateway.Effect.{Result, ok, err}
use fabric_gateway.Errors.{JsError, Metadata, ErrorDetail, GatewayError}
use fabric_gateway.Platform.{Platform}
use fabric_gateway.Protos.Peer.{ChannelHeader, Envelope}
use fabric_gateway.Protos.Gateway.{
  EvaluateResponse, EndorseResponse, SubmitResponse, CommitStatusResponse,
}
use fabric_gateway.Signing.{SigningIdentity}
use fabric_gateway.Client.{
  UnaryReply, called_back, done, GatewayClient, DefaultCallOptions, evaluate_method, endorse_method,
  submit_method, commit_status_method,
}
use fabric_gateway.Contract.{ContractImpl}
use fabric_gateway.TransactionParser.Endorsed.{envelope_of}
use fabric_gateway.Tests.Service
use fabric_gateway.Tests.Wires.{protos}

abbrev pub node : Platform
node = record {
  random_bytes = λ h n. length h ∷ 9 ∷ [];
  date_now = λ h. 1000;
  sha256 = λ b. length b ∷ b;
  inspect = λ errors. "errors";
}

abbrev pub identity : SigningIdentity
identity = record {
  identity = record { msp_id = "Org1MSP"; credentials = 1 ∷ 2 ∷ [] };
  creator = 5 ∷ 6 ∷ [];
  hash = node.sha256;
  signer = λ h digest. ok (77 ∷ digest);
}

abbrev pub channel_header : ChannelHeader
channel_header = record {
  type = 3;
  tx_id = "a1";
  timestamp = 0;
  channel_id = "mychannel";
  extension = [];
  epoch = 0;
}

-- An endorsed envelope, with the result 42.
abbrev pub endorsed : Envelope
endorsed = envelope_of protos channel_header [] (42 ∷ []) []

abbrev pub evaluated : EvaluateResponse
evaluated = record { result = some (record { payload = 41 ∷ [] }) }

abbrev pub endorse_response : EndorseResponse
endorse_response = record { prepared_transaction = some endorsed }

abbrev pub commit_response : CommitStatusResponse
commit_response = record { result = some 0; block_number = 12 }

abbrev reply_bytes : String → Bytes
reply_bytes method =
    if method == evaluate_method
    then Service.evaluate_response.put evaluated
    else if method == endorse_method
    then Service.endorse_response.put endorse_response
    else if method == submit_method
    then Service.submit_code.put SubmitResponse.submit_response
    else if method == commit_status_method
    then Service.commit_status_response.put commit_response
    else []

abbrev of_read : {A : Type 0} → Result JsError A → UnaryReply A
of_read (ok a) = called_back none (some a)
of_read (err e) = called_back (some e) none

abbrev pub no_defaults : DefaultCallOptions
no_defaults = record {
  evaluate_options = none;
  endorse_options = none;
  submit_options = none;
  commit_status_options = none;
  chaincode_events_options = none;
}

abbrev pub answering : GatewayClient
answering = record {
  grpc = record {
    make_unary_request = λ A B h method serialize deserialize argument options.
        of_read (deserialize (reply_bytes method));
    make_server_stream_request =
        λ A B h method serialize deserialize argument options. ok (λ n. done);
  };
  default_options = no_defaults;
}

-- The detail of an error, and the metadata that carries it.
abbrev pub detail : ErrorDetail
detail = record { address = "peer0:7051"; message = "endorsement failed"; msp_id = "Org1MSP" }

abbrev pub metadata : Metadata
metadata = record {
  get = λ key.
      Value.bytes (
        Service.status_proto.put (record {
          details =
              record {
                value = Service.error_detail_proto.put (record {
                  address = "peer0:7051";
                  message = "endorsement failed";
                  msp_id = "Org1MSP";
                });
              }
              ∷ [];
        }))
      ∷ [];
}

abbrev pub rejection : JsError
rejection = record {
  message = "10 ABORTED";
  code = JsValue.number 10;
  details = JsValue.str "ABORTED";
  metadata = some metadata;
  is_error = true;
}

abbrev pub rejecting : GatewayClient
rejecting = record {
  grpc = record {
    make_unary_request =
        λ A B h method serialize deserialize argument options. called_back (some rejection) none;
    make_server_stream_request =
        λ A B h method serialize deserialize argument options. err rejection;
  };
  default_options = no_defaults;
}

abbrev pub rejected : GatewayError
rejected = record {
  message = "10 ABORTED";
  code = JsValue.number 10;
  details = detail ∷ [];
  cause = rejection;
}

abbrev pub contract : ContractImpl
contract = record {
  signing_identity = identity;
  channel_name = "mychannel";
  chaincode_name = "basic";
  contract_name = some "Assets";
}
