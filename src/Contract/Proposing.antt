-- ===== src/Contract/Proposing.antt =====
-- What a peer reads of a proposal that a contract makes.
use fabric_gateway.Base.{◌≡◌, refl, ap, sym, String, Option, ◌∷◌, [], ◌++◌, map, Bytes}
use fabric_gateway.Js.{text}
use fabric_gateway.Js.Buffer.{to_hex}
use fabric_gateway.Effect.{Result, ok, err}
use fabric_gateway.Errors.{History, assert_defined}
use fabric_gateway.Platform.{Platform}
use fabric_gateway.Protos.{Protos, RoundTrips}
use fabric_gateway.Protos.Peer.{ChaincodeProposalPayload}
use fabric_gateway.Signing.{or_default, get_creator, hash}
use fabric_gateway.TransactionContext.{context_of, new_transaction_context, nonce_length}
use fabric_gateway.Proposal.{ProposalImpl, new_proposal_impl}
use fabric_gateway.ProposalBuilder.{
  ProposalOptions, ProposalBuilderOptions, as_bytes, get_args_as_bytes, new_proposal_builder, build,
  new_chaincode_proposal_payload, new_chaincode_invocation_spec,
}
use fabric_gateway.ProposalBuilder as Builder
use fabric_gateway.ProposalBuilder.Invocation.{Invocation, read_invocation}
use fabric_gateway.Contract.{ContractImpl, no_options, get_qualified_transaction_name, new_proposal}

-- The options that the contract passes to the builder.
abbrev pub builder_options : ContractImpl → String → Option ProposalOptions → ProposalBuilderOptions
builder_options c name options = record {
  options = or_default options no_options;
  signing_identity = c.signing_identity;
  channel_name = c.channel_name;
  chaincode_name = c.chaincode_name;
  transaction_name = get_qualified_transaction_name c name;
}

-- The invocation that the arguments of the call describe.
abbrev pub invocation_of :
    Protos → ContractImpl → String → Option ProposalOptions → Bytes → Invocation
invocation_of pb c name options nonce = record {
  type = pb.endorser_transaction;
  channel_id = c.channel_name;
  transaction_id = to_hex (c.signing_identity.hash (nonce ++ c.signing_identity.creator));
  creator = c.signing_identity.creator;
  nonce = nonce;
  header_chaincode = c.chaincode_name;
  chaincode = c.chaincode_name;
  args = map as_bytes (
      text (get_qualified_transaction_name c name)
      ∷ or_default (or_default options no_options).arguments []);
}

abbrev value_or : {E A : Type 0} → A → Result E A → A
value_or a (ok b) = b
value_or a (err e) = a

-- A peer reads of the proposal's bytes the call's function and arguments, the contract's channel and
-- chaincode, the creator, the nonce drawn and the identifier that is the hash of these two. It is
-- also the identifier that the object reports.
pub new_proposal-read_invocation :
    (pb : Protos) (laws : RoundTrips pb) (node : Platform) (c : ContractImpl) (name : String)
    (options : Option ProposalOptions) (h : History) (p : ProposalImpl)
    (payload : ChaincodeProposalPayload)
    → (new_proposal pb node c name options h).0 ≡ ok p
    → pb.chaincode_proposal_payload.deserialize_binary (
        pb.chaincode_proposal_payload.serialize_binary
          (new_chaincode_proposal_payload pb (builder_options c name options)))
      ≡ ok payload
    → payload.input ≡ (new_chaincode_proposal_payload pb (builder_options c name options)).input
    → (read_invocation pb p.proposal.proposal_bytes
        ≡ ok (invocation_of pb c name options (node.random_bytes h nonce_length)))
      × (p.proposed_transaction.transaction_id
          ≡ (invocation_of pb c name options (node.random_bytes h nonce_length)).transaction_id)
unfolding new_proposal new_proposal_builder new_transaction_context context_of get_creator hash
    build new_proposal_impl assert_defined read_invocation Builder.new_proposed_transaction
    Builder.new_signed_proposal Builder.new_proposal Builder.new_header Builder.new_channel_header
    Builder.new_chaincode_header_extension Builder.new_chaincode_proposal_payload
    Builder.new_chaincode_invocation_spec Builder.new_chaincode_spec Builder.new_chaincode_id
    Builder.new_chaincode_input get_args_as_bytes
new_proposal-read_invocation pb laws node c name options h p payload e decoded same = (
  rw (sym (ap (value_or p) e)) (
      rw (laws.proposal_proto _) (
        rw (laws.header _) (
          rw (laws.channel_header _) (
            rw (laws.signature_header _) (
              rw (laws.chaincode_header_extension _)
                (rw decoded (rw same (rw (laws.chaincode_invocation_spec _))))))))),
  rw (sym (ap (value_or p) e)) refl,
)
