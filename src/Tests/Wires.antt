-- ===== src/Tests/Wires.antt =====
-- The parameters of the tests: the message classes by the codes, and a platform.
use fabric_gateway.Base.{[], ◌∷◌}
use fabric_gateway.Js.{JsValue}
use fabric_gateway.Protos.{Protos}
use fabric_gateway.Tests.Codec.{wire}
use fabric_gateway.Tests.Peer
use fabric_gateway.Tests.Service

abbrev pub protos : Protos
protos = record {
  serialized_identity = wire Peer.serialized_identity;
  signature_header = wire Peer.signature_header;
  channel_header = wire Peer.channel_header;
  header = wire Peer.header;
  payload = wire Peer.payload;
  chaincode_header_extension = wire Peer.chaincode_header_extension;
  chaincode_invocation_spec = wire Peer.chaincode_invocation_spec;
  chaincode_proposal_payload = wire Peer.chaincode_proposal_payload;
  proposal_proto = wire Peer.proposal_proto;
  transaction_proto = wire Peer.transaction_proto;
  chaincode_action_payload = wire Peer.chaincode_action_payload;
  proposal_response_payload = wire Peer.proposal_response_payload;
  chaincode_action = wire Peer.chaincode_action;
  proposed_transaction = wire Service.proposed_transaction;
  prepared_transaction = wire Service.prepared_transaction;
  evaluate_request = wire Service.evaluate_request;
  evaluate_response = wire Service.evaluate_response;
  endorse_request = wire Service.endorse_request;
  endorse_response = wire Service.endorse_response;
  submit_request = wire Service.submit_request;
  submit_response = wire Service.submit_code;
  commit_status_request = wire Service.commit_status_request;
  signed_commit_status_request = wire Service.signed_commit_status_request;
  commit_status_response = wire Service.commit_status_response;
  chaincode_events_request_proto = wire Service.chaincode_events_request_proto;
  signed_chaincode_events_request = wire Service.signed_chaincode_events_request;
  chaincode_events_response = wire Service.chaincode_events_response;
  status_proto = wire Service.status_proto;
  error_detail_proto = wire Service.error_detail_proto;
  endorser_transaction = 3;
  node_chaincode = 2;
  tx_validation_code =
      ("VALID", JsValue.number 0)
      ∷ ("MVCC_READ_CONFLICT", JsValue.number 11)
      ∷ ("INVALID_OTHER_REASON", JsValue.number 255)
      ∷ [];
  valid = 0;
  invalid_other_reason = 255;
}
