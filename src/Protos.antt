-- ===== src/Protos.antt =====
-- The protocol buffers that the program exchanges with a gateway. The generated message classes are
-- not part of the repository: they are parameters, as a serializer and a deserializer for each
-- class of which the program calls these, and the values of the enumerations that it names.
pub mod Peer
pub mod Gateway
use fabric_gateway.Base.{ℕ, String, List, ◌≡◌, Bytes}
use fabric_gateway.Js.{JsValue}
use fabric_gateway.Effect.{Result, ok}
use fabric_gateway.Errors.{JsError}
use Peer.{
  SerializedIdentity, SignatureHeader, ChannelHeader, Header, Payload, ChaincodeHeaderExtension,
  ChaincodeInvocationSpec, ChaincodeProposalPayload, ProposalProto, TransactionProto,
  ChaincodeActionPayload, ProposalResponsePayload, ChaincodeAction,
}
use Gateway.{
  ProposedTransaction, PreparedTransaction, EvaluateRequest, EvaluateResponse, EndorseRequest,
  EndorseResponse, SubmitRequest, SubmitResponse, CommitStatusRequest, SignedCommitStatusRequest,
  CommitStatusResponse, ChaincodeEventsRequestProto, SignedChaincodeEventsRequest,
  ChaincodeEventsResponse, StatusProto, ErrorDetailProto,
}

-- A generated class: `serializeBinary` and `deserializeBinary`, which may throw.
pub record Wire (A : Type 0) : Type 0 where
  pub serialize_binary : A → Bytes
  pub deserialize_binary : Bytes → Result JsError A

-- What a message was serialised to is read back as that message.
abbrev pub IsRoundTrip : {A : Type 0} → Wire A → Type 0
IsRoundTrip {A} w = (m : A) → w.deserialize_binary (w.serialize_binary m) ≡ ok m

pub record Protos : Type 0 where
  pub serialized_identity : Wire SerializedIdentity
  pub signature_header : Wire SignatureHeader
  pub channel_header : Wire ChannelHeader
  pub header : Wire Header
  pub payload : Wire Payload
  pub chaincode_header_extension : Wire ChaincodeHeaderExtension
  pub chaincode_invocation_spec : Wire ChaincodeInvocationSpec
  pub chaincode_proposal_payload : Wire ChaincodeProposalPayload
  pub proposal_proto : Wire ProposalProto
  pub transaction_proto : Wire TransactionProto
  pub chaincode_action_payload : Wire ChaincodeActionPayload
  pub proposal_response_payload : Wire ProposalResponsePayload
  pub chaincode_action : Wire ChaincodeAction
  pub proposed_transaction : Wire ProposedTransaction
  pub prepared_transaction : Wire PreparedTransaction
  pub evaluate_request : Wire EvaluateRequest
  pub evaluate_response : Wire EvaluateResponse
  pub endorse_request : Wire EndorseRequest
  pub endorse_response : Wire EndorseResponse
  pub submit_request : Wire SubmitRequest
  pub submit_response : Wire SubmitResponse
  pub commit_status_request : Wire CommitStatusRequest
  pub signed_commit_status_request : Wire SignedCommitStatusRequest
  pub commit_status_response : Wire CommitStatusResponse
  pub chaincode_events_request_proto : Wire ChaincodeEventsRequestProto
  pub signed_chaincode_events_request : Wire SignedChaincodeEventsRequest
  pub chaincode_events_response : Wire ChaincodeEventsResponse
  pub status_proto : Wire StatusProto
  pub error_detail_proto : Wire ErrorDetailProto
  -- `HeaderType.ENDORSER_TRANSACTION` and `ChaincodeSpec.Type.NODE`.
  pub endorser_transaction : ℕ
  pub node_chaincode : ℕ
  -- The properties of the `TxValidationCode` object, and two of its codes.
  pub tx_validation_code : List (String × JsValue)
  pub valid : ℕ
  pub invalid_other_reason : ℕ

-- The documented behaviour of the generated classes, for those whose serialised messages the
-- program or a peer reads back.
pub record RoundTrips (pb : Protos) : Type 0 where
  pub signature_header : IsRoundTrip pb.signature_header
  pub channel_header : IsRoundTrip pb.channel_header
  pub header : IsRoundTrip pb.header
  pub payload : IsRoundTrip pb.payload
  pub chaincode_header_extension : IsRoundTrip pb.chaincode_header_extension
  pub chaincode_invocation_spec : IsRoundTrip pb.chaincode_invocation_spec
  pub proposal_proto : IsRoundTrip pb.proposal_proto
  pub transaction_proto : IsRoundTrip pb.transaction_proto
  pub chaincode_action_payload : IsRoundTrip pb.chaincode_action_payload
  pub proposal_response_payload : IsRoundTrip pb.proposal_response_payload
  pub chaincode_action : IsRoundTrip pb.chaincode_action
  pub proposed_transaction : IsRoundTrip pb.proposed_transaction
  pub prepared_transaction : IsRoundTrip pb.prepared_transaction
  pub commit_status_request : IsRoundTrip pb.commit_status_request
  pub signed_commit_status_request : IsRoundTrip pb.signed_commit_status_request
  pub status_proto : IsRoundTrip pb.status_proto
  pub error_detail_proto : IsRoundTrip pb.error_detail_proto
