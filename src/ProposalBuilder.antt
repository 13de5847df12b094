-- ===== src/ProposalBuilder.antt =====
-- node/src/proposalbuilder.ts: the proposal message of a transaction call, layer by layer.
pub mod Invocation
pub mod Transient
use fabric_gateway.Base.{ℕ, String, Option, some, List, [], ◌∷◌, map, Bytes}
use fabric_gateway.Js.{Value, text, bytes}
use fabric_gateway.Js.Buffer.{utf8}
use fabric_gateway.Js.Object.{Object, put}
use fabric_gateway.Effect.{map_err, ◌>>=◌, pure}
use fabric_gateway.Errors.{Thrown, Event, M}
use fabric_gateway.Platform.{Platform}
use fabric_gateway.Protos.{Protos}
use fabric_gateway.Protos.Peer.{
  ChannelHeader, Header, ChaincodeId, ChaincodeHeaderExtension, ChaincodeInput, ChaincodeSpec,
  ChaincodeInvocationSpec, ChaincodeProposalPayload, ProposalProto, SignedProposal,
}
use fabric_gateway.Protos.Gateway.{ProposedTransaction}
use fabric_gateway.Signing.{SigningIdentity, or_default}
use fabric_gateway.TransactionContext.{TransactionContext, new_transaction_context}
use fabric_gateway.Proposal.{ProposalImpl, new_proposal_impl}

pub record ProposalOptions : Type 0 where
  pub arguments : Option (List Value)
  pub transient_data : Option (Object Value)
  pub endorsing_organizations : Option (List String)

pub record ProposalBuilderOptions : Type 0 where
  pub options : ProposalOptions
  pub open options use *
  pub signing_identity : SigningIdentity
  pub channel_name : String
  pub chaincode_name : String
  pub transaction_name : String

pub record ProposalBuilder : Type 0 where
  pub options : ProposalBuilderOptions
  pub transaction_context : TransactionContext

-- The constructor.
unfoldable pub new_proposal_builder : Platform → ProposalBuilderOptions → M ProposalBuilder
new_proposal_builder node options = do
  context ← new_transaction_context node options.signing_identity
  pure (record { options = options; transaction_context = context })

unfoldable pub as_bytes : Value → Bytes
as_bytes (text s) = utf8 s
as_bytes (bytes b) = b

unfoldable pub get_args_as_bytes : ProposalBuilderOptions → List Bytes
get_args_as_bytes o = map as_bytes (text o.transaction_name ∷ or_default o.options.arguments [])

-- The loop that fills the result.
unfoldable pub put_bytes : Object Bytes → Object Value → Object Bytes
put_bytes result [] = result
put_bytes result ((key, value) ∷ entries) = put_bytes (put key (as_bytes value) result) entries

unfoldable pub get_transient_data : ProposalBuilderOptions → Object Bytes
unfolding put_bytes
get_transient_data o = put_bytes [] (or_default o.options.transient_data [])

-- The loop that fills the message's map.
unfoldable pub set_entries : Object Bytes → Object Bytes → Object Bytes
set_entries transient_map [] = transient_map
set_entries transient_map ((key, value) ∷ entries) =
    set_entries (put key value transient_map) entries

unfoldable pub new_chaincode_id : ProposalBuilderOptions → ChaincodeId
new_chaincode_id o = record { name = o.chaincode_name }

unfoldable pub new_chaincode_input : ProposalBuilderOptions → ChaincodeInput
new_chaincode_input o = record { args = get_args_as_bytes o }

module _ (pb : Protos) where
  unfoldable pub new_chaincode_spec : ProposalBuilderOptions → ChaincodeSpec
  unfolding new_chaincode_id new_chaincode_input
  new_chaincode_spec o = record {
    type = pb.node_chaincode;
    chaincode_id = some (new_chaincode_id o);
    input = some (new_chaincode_input o);
  }

  unfoldable pub new_chaincode_invocation_spec : ProposalBuilderOptions → ChaincodeInvocationSpec
  unfolding new_chaincode_spec
  new_chaincode_invocation_spec o = record { chaincode_spec = some (new_chaincode_spec o) }

  unfoldable pub new_chaincode_proposal_payload : ProposalBuilderOptions → ChaincodeProposalPayload
  unfolding new_chaincode_invocation_spec
  new_chaincode_proposal_payload o = record {
    input = pb.chaincode_invocation_spec.serialize_binary (new_chaincode_invocation_spec o);
    transient_map = set_entries [] (get_transient_data o);
  }

  unfoldable pub new_chaincode_header_extension : ProposalBuilderOptions → ChaincodeHeaderExtension
  unfolding new_chaincode_id
  new_chaincode_header_extension o = record { chaincode_id = some (new_chaincode_id o) }

  unfoldable pub new_channel_header : ProposalBuilder → ℕ → ChannelHeader
  unfolding new_chaincode_header_extension
  new_channel_header b now = record {
    type = pb.endorser_transaction;
    tx_id = b.transaction_context.transaction_id;
    timestamp = now;
    channel_id = b.options.channel_name;
    extension =
        pb.chaincode_header_extension.serialize_binary (new_chaincode_header_extension b.options);
    epoch = 0;
  }

  unfoldable pub new_header : ProposalBuilder → ℕ → Header
  unfolding new_channel_header
  new_header b now = record {
    channel_header = pb.channel_header.serialize_binary (new_channel_header b now);
    signature_header = pb.signature_header.serialize_binary b.transaction_context.signature_header;
  }

  unfoldable pub new_proposal : ProposalBuilder → ℕ → ProposalProto
  unfolding new_header new_chaincode_proposal_payload
  new_proposal b now = record {
    header = pb.header.serialize_binary (new_header b now);
    payload =
        pb.chaincode_proposal_payload.serialize_binary (new_chaincode_proposal_payload b.options);
  }

  -- A new message has the empty signature.
  unfoldable pub new_signed_proposal : ProposalBuilder → ℕ → SignedProposal
  unfolding new_proposal
  new_signed_proposal b now = record {
    proposal_bytes = pb.proposal_proto.serialize_binary (new_proposal b now);
    signature = [];
  }

  -- Unless organizations are given, the message's list stays empty.
  unfoldable pub new_proposed_transaction : ProposalBuilder → ℕ → ProposedTransaction
  unfolding new_signed_proposal
  new_proposed_transaction b now = record {
    transaction_id = b.transaction_context.transaction_id;
    proposal = some (new_signed_proposal b now);
    endorsing_organizations = or_default b.options.options.endorsing_organizations [];
  }

  -- `build`; the header's timestamp asks for the time.
  unfoldable pub build : Platform → ProposalBuilder → M ProposalImpl
  unfolding new_proposed_transaction new_proposal_impl
  build node b h = (
    map_err Thrown.error (
        new_proposal_impl b.options.signing_identity b.options.channel_name
          (new_proposed_transaction b (node.date_now h))),
    Event.now ∷ h,
  )
