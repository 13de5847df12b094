-- ===== src/Tests/Peer.antt =====
-- Codes of the peer messages.
use fabric_gateway.Base.{refl}
use fabric_gateway.Protos.Peer.{
  SerializedIdentity, SignatureHeader, ChannelHeader, Header, Envelope, Payload, ChaincodeId,
  ChaincodeHeaderExtension, ChaincodeInput, ChaincodeSpec, ChaincodeInvocationSpec,
  ChaincodeProposalPayload, ProposalProto, SignedProposal, Response, TransactionAction,
  TransactionProto, ChaincodeEndorsedAction, ChaincodeActionPayload, ProposalResponsePayload,
  ChaincodeAction,
}
use fabric_gateway.Tests.Codec.{Codec, nat, bytes, via, string, pair, option, list}

abbrev pub serialized_identity : Codec SerializedIdentity
serialized_identity =
    via (λ m. (m.mspid, m.id_bytes)) (λ x. record { mspid = x.0; id_bytes = x.1 }) (λ m. refl)
      (pair string bytes)

abbrev pub signature_header : Codec SignatureHeader
signature_header =
    via (λ m. (m.creator, m.nonce)) (λ x. record { creator = x.0; nonce = x.1 }) (λ m. refl)
      (pair bytes bytes)

abbrev pub channel_header : Codec ChannelHeader
channel_header =
    via (λ m. (m.type, (m.tx_id, (m.timestamp, (m.channel_id, (m.extension, m.epoch))))))
      (λ x. record {
        type = x.0;
        tx_id = x.1.0;
        timestamp = x.1.1.0;
        channel_id = x.1.1.1.0;
        extension = x.1.1.1.1.0;
        epoch = x.1.1.1.1.1;
      })
      (λ m. refl) (pair nat (pair string (pair nat (pair string (pair bytes nat)))))

abbrev pub header : Codec Header
header =
    via (λ m. (m.channel_header, m.signature_header))
      (λ x. record { channel_header = x.0; signature_header = x.1 }) (λ m. refl) (pair bytes bytes)

abbrev pub envelope : Codec Envelope
envelope =
    via (λ m. (m.payload, m.signature)) (λ x. record { payload = x.0; signature = x.1 }) (λ m. refl)
      (pair bytes bytes)

abbrev pub payload : Codec Payload
payload =
    via (λ m. (m.header, m.data_bytes)) (λ x. record { header = x.0; data_bytes = x.1 }) (λ m. refl)
      (pair (option header) bytes)

abbrev pub chaincode_id : Codec ChaincodeId
chaincode_id = via (λ m. m.name) (λ x. record { name = x }) (λ m. refl) string

abbrev pub chaincode_header_extension : Codec ChaincodeHeaderExtension
chaincode_header_extension =
    via (λ m. m.chaincode_id) (λ x. record { chaincode_id = x }) (λ m. refl) (option chaincode_id)

abbrev pub chaincode_input : Codec ChaincodeInput
chaincode_input = via (λ m. m.args) (λ x. record { args = x }) (λ m. refl) (list bytes)

abbrev pub chaincode_spec : Codec ChaincodeSpec
chaincode_spec =
    via (λ m. (m.type, (m.chaincode_id, m.input)))
      (λ x. record { type = x.0; chaincode_id = x.1.0; input = x.1.1 }) (λ m. refl)
      (pair nat (pair (option chaincode_id) (option chaincode_input)))

abbrev pub chaincode_invocation_spec : Codec ChaincodeInvocationSpec
chaincode_invocation_spec =
    via (λ m. m.chaincode_spec) (λ x. record { chaincode_spec = x }) (λ m. refl)
      (option chaincode_spec)

abbrev pub chaincode_proposal_payload : Codec ChaincodeProposalPayload
chaincode_proposal_payload =
    via (λ m. (m.input, m.transient_map)) (λ x. record { input = x.0; transient_map = x.1 })
      (λ m. refl) (pair bytes (list (pair string bytes)))

abbrev pub proposal_proto : Codec ProposalProto
proposal_proto =
    via (λ m. (m.header, m.payload)) (λ x. record { header = x.0; payload = x.1 }) (λ m. refl)
      (pair bytes bytes)

abbrev pub signed_proposal : Codec SignedProposal
signed_proposal =
    via (λ m. (m.proposal_bytes, m.signature))
      (λ x. record { proposal_bytes = x.0; signature = x.1 }) (λ m. refl) (pair bytes bytes)

abbrev pub response : Codec Response
response = via (λ m. m.payload) (λ x. record { payload = x }) (λ m. refl) bytes

abbrev pub transaction_action : Codec TransactionAction
transaction_action = via (λ m. m.payload) (λ x. record { payload = x }) (λ m. refl) bytes

abbrev pub transaction_proto : Codec TransactionProto
transaction_proto =
    via (λ m. m.actions) (λ x. record { actions = x }) (λ m. refl) (list transaction_action)

abbrev pub chaincode_endorsed_action : Codec ChaincodeEndorsedAction
chaincode_endorsed_action =
    via (λ m. m.proposal_response_payload) (λ x. record { proposal_response_payload = x })
      (λ m. refl) bytes

abbrev pub chaincode_action_payload : Codec ChaincodeActionPayload
chaincode_action_payload =
    via (λ m. m.action) (λ x. record { action = x }) (λ m. refl) (option chaincode_endorsed_action)

abbrev pub proposal_response_payload : Codec ProposalResponsePayload
proposal_response_payload = via (λ m. m.extension) (λ x. record { extension = x }) (λ m. refl) bytes

abbrev pub chaincode_action : Codec ChaincodeAction
chaincode_action =
    via (λ m. m.response) (λ x. record { response = x }) (λ m. refl) (option response)
