-- ===== src/Network.antt =====
-- node/src/network.ts: a channel, its contracts and its chaincode events.
use fabric_gateway.Base.{String, Option, none}
use fabric_gateway.Effect.{call_on}
use fabric_gateway.Errors.{M}
use fabric_gateway.Protos.{Protos}
use fabric_gateway.Signing.{SigningIdentity, or_default}
use fabric_gateway.Client.{GatewayClient}
use fabric_gateway.Contract.{ContractImpl}
use fabric_gateway.Events.{ChaincodeEvents}
use fabric_gateway.Events.Request.{
  ChaincodeEventsOptions, ChaincodeEventsRequestImpl, build, get_events,
}

-- `NetworkImpl`; the client is a parameter of the methods.
pub record NetworkImpl : Type 0 where
  pub signing_identity : SigningIdentity
  pub channel_name : String

unfoldable pub get_name : NetworkImpl → String
get_name n = n.channel_name

unfoldable pub get_contract : NetworkImpl → String → Option String → ContractImpl
get_contract n chaincode_name contract_name = record {
  signing_identity = n.signing_identity;
  channel_name = n.channel_name;
  chaincode_name = chaincode_name;
  contract_name = contract_name;
}

-- The default of an options argument, `{}`.
abbrev pub no_events_options : ChaincodeEventsOptions
no_events_options = record { start_block = none }

unfoldable pub new_chaincode_events_request :
    Protos → NetworkImpl → String → Option ChaincodeEventsOptions → ChaincodeEventsRequestImpl
unfolding build
new_chaincode_events_request pb n chaincode_name options = build pb (record {
  start_block = (or_default options no_events_options).start_block;
  signing_identity = n.signing_identity;
  channel_name = n.channel_name;
  chaincode_name = chaincode_name;
})

unfoldable pub get_chaincode_events :
    Protos
    → GatewayClient
    → NetworkImpl
    → String
    → Option ChaincodeEventsOptions
    → M ChaincodeEvents
unfolding new_chaincode_events_request
get_chaincode_events pb client n chaincode_name options =
    call_on (new_chaincode_events_request pb n chaincode_name options) (get_events pb client none)
