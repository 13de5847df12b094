-- ===== src/Protos/Peer.antt =====
-- Messages of Fabric's peer, orderer and common protocols, whose classes are generated from a
-- submodule. A record holds the values that the getters of a message return, for the fields that
-- the program sets or reads; an unset message field is `none`.
use fabric_gateway.Base.{ℕ, String, Option, List, Bytes}
use fabric_gateway.Js.Object.{Object}

pub record SerializedIdentity : Type 0 where
  pub mspid : String
  pub id_bytes : Bytes

pub record SignatureHeader : Type 0 where
  pub creator : Bytes
  pub nonce : Bytes

pub record ChannelHeader : Type 0 where
  pub type : ℕ
  pub tx_id : String
  pub timestamp : ℕ
  pub channel_id : String
  pub extension : Bytes
  pub epoch : ℕ

pub record Header : Type 0 where
  pub channel_header : Bytes
  pub signature_header : Bytes

pub record Envelope : Type 0 where
  pub payload : Bytes
  pub signature : Bytes

pub record Payload : Type 0 where
  pub header : Option Header
  pub data_bytes : Bytes

pub record ChaincodeId : Type 0 where
  pub name : String

pub record ChaincodeHeaderExtension : Type 0 where
  pub chaincode_id : Option ChaincodeId

pub record ChaincodeInput : Type 0 where
  pub args : List Bytes

pub record ChaincodeSpec : Type 0 where
  pub type : ℕ
  pub chaincode_id : Option ChaincodeId
  pub input : Option ChaincodeInput

pub record ChaincodeInvocationSpec : Type 0 where
  pub chaincode_spec : Option ChaincodeSpec

pub record ChaincodeProposalPayload : Type 0 where
  pub input : Bytes
  pub transient_map : Object Bytes

pub record ProposalProto : Type 0 where
  pub header : Bytes
  pub payload : Bytes

pub record SignedProposal : Type 0 where
  pub proposal_bytes : Bytes
  pub signature : Bytes

pub record Response : Type 0 where
  pub payload : Bytes

pub record TransactionAction : Type 0 where
  pub payload : Bytes

pub record TransactionProto : Type 0 where
  pub actions : List TransactionAction

pub record ChaincodeEndorsedAction : Type 0 where
  pub proposal_response_payload : Bytes

pub record ChaincodeActionPayload : Type 0 where
  pub action : Option ChaincodeEndorsedAction

pub record ProposalResponsePayload : Type 0 where
  pub extension : Bytes

pub record ChaincodeAction : Type 0 where
  pub response : Option Response
