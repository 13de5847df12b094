-- ===== src/Protos/Gateway.antt =====
-- Messages of the gateway service, likewise.
use fabric_gateway.Base.{ℕ, String, Option, List, Bytes}
use fabric_gateway.Js.Number.{ℤ}
use fabric_gateway.Protos.Peer.{Envelope, SignedProposal, Response}

-- `SeekPosition` is a choice of a field; its `SeekSpecified` holds a JavaScript number.
pub data SeekPosition : Type 0 where
  next_commit : SeekPosition
  specified : ℤ → SeekPosition

pub record ProposedTransaction : Type 0 where
  pub transaction_id : String
  pub proposal : Option SignedProposal
  pub endorsing_organizations : List String

pub record EvaluateRequest : Type 0 where
  pub transaction_id : String
  pub channel_id : String
  pub proposed_transaction : Option SignedProposal
  pub target_organizations : List String

pub record EvaluateResponse : Type 0 where
  pub result : Option Response

pub record EndorseRequest : Type 0 where
  pub transaction_id : String
  pub channel_id : String
  pub proposed_transaction : Option SignedProposal
  pub endorsing_organizations : List String

pub record EndorseResponse : Type 0 where
  pub prepared_transaction : Option Envelope

pub record PreparedTransaction : Type 0 where
  pub transaction_id : String
  pub envelope : Option Envelope

pub record SubmitRequest : Type 0 where
  pub transaction_id : String
  pub channel_id : String
  pub prepared_transaction : Option Envelope

pub record CommitStatusRequest : Type 0 where
  pub transaction_id : String
  pub channel_id : String
  pub identity : Bytes

pub record SignedCommitStatusRequest : Type 0 where
  pub request : Bytes
  pub signature : Bytes

-- The program allows for a missing result.
pub record CommitStatusResponse : Type 0 where
  pub result : Option ℕ
  pub block_number : ℕ

pub record ChaincodeEventsRequestProto : Type 0 where
  pub channel_id : String
  pub chaincode_id : String
  pub identity : Bytes
  pub start_position : Option SeekPosition

pub record SignedChaincodeEventsRequest : Type 0 where
  pub request : Bytes
  pub signature : Bytes

pub record ChaincodeEventProto : Type 0 where
  pub chaincode_id : String
  pub tx_id : String
  pub event_name : String
  pub payload : Bytes

pub record ChaincodeEventsResponse : Type 0 where
  pub events : List ChaincodeEventProto
  pub block_number : ℕ

pub record ErrorDetailProto : Type 0 where
  pub address : String
  pub message : String
  pub msp_id : String

pub record AnyProto : Type 0 where
  pub value : Bytes

pub record StatusProto : Type 0 where
  pub details : List AnyProto

-- `SubmitResponse` has no field.
pub data SubmitResponse : Type 0 where
  submit_response : SubmitResponse
