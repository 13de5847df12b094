-- ===== src/ProposalBuilder/Invocation.antt =====
-- What an endorsing peer reads of the bytes of a proposal: a description of a proposal's content
-- that does not depend on the builder.
use fabric_gateway.Base.{ℕ, String, List, Bytes}
use fabric_gateway.Effect.{Result, ok, then_result}
use fabric_gateway.Errors.{JsError, assert_defined}
use fabric_gateway.Protos.{Protos}

pub record Invocation : Type 0 where
  pub type : ℕ
  pub channel_id : String
  pub transaction_id : String
  pub creator : Bytes
  pub nonce : Bytes
  -- In the header's extension, and in the invocation.
  pub header_chaincode : String
  pub chaincode : String
  pub args : List Bytes

module _ (pb : Protos) where
  unfoldable pub read_invocation : Bytes → Result JsError Invocation
  read_invocation b = then_result (pb.proposal_proto.deserialize_binary b) λ proposal.
      then_result (pb.header.deserialize_binary proposal.header) λ header.
        then_result (pb.channel_header.deserialize_binary header.channel_header) λ channel.
          then_result (pb.signature_header.deserialize_binary header.signature_header) λ signer.
            then_result (pb.chaincode_header_extension.deserialize_binary channel.extension)
              λ extension.
                then_result (assert_defined extension.chaincode_id "no chaincode in the header")
                  λ header_id.
                    then_result (pb.chaincode_proposal_payload.deserialize_binary proposal.payload)
                      λ payload.
                        then_result (pb.chaincode_invocation_spec.deserialize_binary payload.input)
                          λ invocation.
                            then_result
                              (assert_defined invocation.chaincode_spec "no chaincode spec")
                              λ spec.
                                then_result (assert_defined spec.chaincode_id "no chaincode") λ id.
                                  then_result (assert_defined spec.input "no input") λ input.
                                    ok (record {
                                      type = channel.type;
                                      channel_id = channel.channel_id;
                                      transaction_id = channel.tx_id;
                                      creator = signer.creator;
                                      nonce = signer.nonce;
                                      header_chaincode = header_id.name;
                                      chaincode = id.name;
                                      args = input.args;
                                    })
