-- ===== src/Gateway.antt =====
-- node/src/gateway.ts: connecting, and rebuilding objects from bytes signed off line.
pub mod Offline
use fabric_gateway.Base.{String, Option, none, some, Bytes}
use fabric_gateway.Effect.{Result, ok, then_result, map_err}
use fabric_gateway.Errors.{M, JsError, Thrown, assert_defined, throw_error}
use fabric_gateway.Platform.{Platform}
use fabric_gateway.Protos.{Protos}
use fabric_gateway.Signing.{
  Identity, Signer, Hash, SigningIdentity, new_signing_identity, get_identity as get_identity_of,
}
use fabric_gateway.Client.{GatewayGrpcClient, GatewayClient, DefaultCallOptions, new_gateway_client}
use fabric_gateway.Network.{NetworkImpl}
use fabric_gateway.Proposal.{ProposalImpl, new_proposal_impl}
use fabric_gateway.Proposal
use fabric_gateway.Transaction.{TransactionImpl, new_transaction_impl}
use fabric_gateway.Transaction
use fabric_gateway.Commit.{CommitImpl}
use fabric_gateway.Commit
use fabric_gateway.Events.Request.{ChaincodeEventsRequestImpl, new_chaincode_events_request_impl}
use fabric_gateway.Events.Request

-- `InternalConnectOptions`. A caller without type checks may leave out the client and the identity.
pub record ConnectOptions : Type 1 where
  pub client : Option GatewayGrpcClient
  pub identity : Option Identity
  pub signer : Option Signer
  pub hash : Option Hash
  pub default_options : DefaultCallOptions

-- `GatewayImpl`
pub record GatewayImpl : Type 1 where
  pub client : GatewayClient
  pub signing_identity : SigningIdentity

unfoldable pub internal_connect : Protos → Platform → ConnectOptions → Result JsError GatewayImpl
unfolding new_gateway_client
internal_connect pb node options = elim options.client [
  | none ↦ throw_error "No client connection supplied"
  | some client ↦ elim options.identity [
    | none ↦ throw_error "No identity supplied"
    | some identity ↦ ok (record {
      client = new_gateway_client client options.default_options;
      signing_identity =
          new_signing_identity pb node
            (record { identity = identity; signer = options.signer; hash = options.hash });
    })
  ]
]

unfoldable pub connect : Protos → Platform → ConnectOptions → Result JsError GatewayImpl
unfolding internal_connect
connect pb node options = internal_connect pb node options

unfoldable pub get_identity : GatewayImpl → Identity
unfolding get_identity_of
get_identity g = get_identity_of g.signing_identity

unfoldable pub get_network : GatewayImpl → String → NetworkImpl
get_network g channel_name = record {
  signing_identity = g.signing_identity;
  channel_name = channel_name;
}

-- `close`, whose body does nothing.
unfoldable pub close : GatewayImpl → M (Unit {0})
close g h = (ok tt, h)

-- The methods below use only the gateway's signing identity.
module _ (pb : Protos) where
  unfoldable pub new_signed_proposal : SigningIdentity → Bytes → Bytes → Result JsError ProposalImpl
  unfolding assert_defined
  new_signed_proposal identity bytes signature =
      then_result (pb.proposed_transaction.deserialize_binary bytes) λ proposed.
        then_result (assert_defined proposed.proposal "Missing signed proposal") λ signed.
          then_result (pb.proposal_proto.deserialize_binary signed.proposal_bytes) λ proposal.
            then_result (pb.header.deserialize_binary proposal.header) λ header.
              then_result (pb.channel_header.deserialize_binary header.channel_header)
                λ channel_header.
                  then_result (new_proposal_impl identity channel_header.channel_id proposed)
                    λ result. ok (Proposal.set_signature signature result)

  unfoldable pub new_signed_transaction :
      Platform → SigningIdentity → Bytes → Bytes → Result Thrown TransactionImpl
  new_signed_transaction node identity bytes signature =
      then_result (map_err Thrown.error (pb.prepared_transaction.deserialize_binary bytes))
        λ prepared.
          then_result (new_transaction_impl pb node identity prepared)
            λ result. ok (Transaction.set_signature signature result)

  unfoldable pub new_signed_commit : SigningIdentity → Bytes → Bytes → Result JsError CommitImpl
  new_signed_commit identity bytes signature =
      then_result (pb.signed_commit_status_request.deserialize_binary bytes) λ signed_request.
        then_result (pb.commit_status_request.deserialize_binary signed_request.request) λ request.
          ok (
            Commit.set_signature signature (record {
              signing_identity = identity;
              transaction_id = request.transaction_id;
              signed_request = signed_request;
            }))

  unfoldable pub new_signed_chaincode_events_request :
      SigningIdentity → Bytes → Bytes → Result JsError ChaincodeEventsRequestImpl
  new_signed_chaincode_events_request identity bytes signature =
      then_result (pb.chaincode_events_request_proto.deserialize_binary bytes) λ request.
        ok (Request.set_signature signature (new_chaincode_events_request_impl pb identity request))
