-- ===== src/Events/Request.antt =====
-- node/src/chaincodeeventsbuilder.ts and node/src/chaincodeeventsrequest.ts: a request for chaincode
-- events, from its options to the signed request and the events.
use fabric_gateway.Base.{
  ℕ, ◌<◌, ◌^◌, ◌≡◌, ap, String, Option, none, some, [], Bytes, Bool, length, ltb,
}
use fabric_gateway.Js.Number.{ℤ, pos, to_number, to_number_nat-small}
use fabric_gateway.Effect.{◌>>=◌, ◌>>◌, pure, gets, on_history}
use fabric_gateway.Errors.{CallOptions, Method}
use fabric_gateway.Protos.{Protos}
use fabric_gateway.Protos.Gateway.{
  SeekPosition, ChaincodeEventsRequestProto, SignedChaincodeEventsRequest,
}
use fabric_gateway.Signing.{SigningIdentity, get_creator}
use fabric_gateway.Signing.Signable.{Signable, sign_if_unsigned}
use fabric_gateway.Client.{GatewayClient, chaincode_events}
use fabric_gateway.Events.{ChaincodeEvents, new_chaincode_events}

-- `ChaincodeEventsOptions`
pub record ChaincodeEventsOptions : Type 0 where
  pub start_block : Option ℤ

pub record ChaincodeEventsBuilderOptions : Type 0 where
  pub start_block : Option ℤ
  pub signing_identity : SigningIdentity
  pub channel_name : String
  pub chaincode_name : String

-- `#getStartPosition`
unfoldable pub get_start_position : Option ℤ → SeekPosition
get_start_position (some start_block) = SeekPosition.specified (to_number start_block)
get_start_position none = SeekPosition.next_commit

-- A start block below 2 ^ 53 is asked for as it is.
get_start_position-small :
    (n : ℕ) → n < 2 ^ 53 → get_start_position (some (pos n)) ≡ SeekPosition.specified (pos n)
unfolding get_start_position to_number
get_start_position-small n p = ap (λ k. SeekPosition.specified (pos k)) (to_number_nat-small n p)

unfoldable pub new_chaincode_events_request_proto :
    ChaincodeEventsBuilderOptions → ChaincodeEventsRequestProto
unfolding get_creator get_start_position
new_chaincode_events_request_proto o = record {
  channel_id = o.channel_name;
  chaincode_id = o.chaincode_name;
  identity = get_creator o.signing_identity;
  start_position = some (get_start_position o.start_block);
}

-- `ChaincodeEventsRequestImpl`; the client is a parameter of the methods.
pub record ChaincodeEventsRequestImpl : Type 0 where
  pub signing_identity : SigningIdentity
  pub signed_request : SignedChaincodeEventsRequest

-- The constructor. A new message has the empty signature.
unfoldable pub new_chaincode_events_request_impl :
    Protos → SigningIdentity → ChaincodeEventsRequestProto → ChaincodeEventsRequestImpl
new_chaincode_events_request_impl pb identity request = record {
  signing_identity = identity;
  signed_request = record {
    request = pb.chaincode_events_request_proto.serialize_binary request;
    signature = [];
  };
}

-- `ChaincodeEventsBuilder.build`
unfoldable pub build : Protos → ChaincodeEventsBuilderOptions → ChaincodeEventsRequestImpl
unfolding new_chaincode_events_request_impl new_chaincode_events_request_proto
build pb o =
    new_chaincode_events_request_impl pb o.signing_identity (new_chaincode_events_request_proto o)

unfoldable pub set_signature : Bytes → ChaincodeEventsRequestImpl → ChaincodeEventsRequestImpl
set_signature b r = record r { signed_request = record (r.signed_request) { signature = b } }

unfoldable pub is_signed : ChaincodeEventsRequestImpl → Bool
is_signed r = ltb 0 (length r.signed_request.signature)

abbrev pub request_signable : Signable ChaincodeEventsRequestImpl
request_signable = record {
  signing_identity = λ r. r.signing_identity;
  message = λ r. r.signed_request.request;
  signature = λ r. r.signed_request.signature;
  is_signed = is_signed;
  set_signature = set_signature;
}

unfoldable pub get_bytes : ChaincodeEventsRequestImpl → Bytes
get_bytes r = r.signed_request.request

unfoldable pub get_events :
    Protos → GatewayClient → Option CallOptions → Method ChaincodeEventsRequestImpl ChaincodeEvents
unfolding new_chaincode_events
get_events pb client options = do
  sign_if_unsigned request_signable
  r ← gets (λ s. s.0)
  responses ← on_history (chaincode_events pb client r.signed_request options)
  pure (new_chaincode_events responses)
