-- ===== src/Scenario/Context.antt =====
-- scenario/node/src/gatewaycontext.ts and eventlistener.ts: the gateway, network and contract that a
-- scenario works with, and its listeners for chaincode events.
pub mod Listening
pub mod Consistent
pub mod Released
pub mod Steps
use Prim.Native.String.{◌++◌}
use fabric_gateway.Base.{ℕ, String, Option, none, some, List, [], ◌∷◌, Bytes}
use fabric_gateway.Js.Object.{Object, get, put}
use fabric_gateway.Effect.{
  Result, ok, err, map_err, pure, of_result, gets, modify, on_history, ◌>>=◌, ◌>>◌,
}
use fabric_gateway.Effect.Whole.{for_each}
use fabric_gateway.Errors.{JsError, Thrown, History, Method}
use fabric_gateway.Platform.{Platform}
use fabric_gateway.Protos.{Protos}
use fabric_gateway.Signing.{Identity, Signer, SigningIdentity}
use fabric_gateway.Client.{
  GatewayGrpcClient, GatewayClient, Read, value, done, failed, DefaultCallOptions,
}
use fabric_gateway.Network.{NetworkImpl, get_contract, get_chaincode_events}
use fabric_gateway.Contract.{ContractImpl}
use fabric_gateway.Events.{ChaincodeEvent, ChaincodeEvents, Generator}
use fabric_gateway.Events
use fabric_gateway.Events.Request.{ChaincodeEventsOptions}
use fabric_gateway.Gateway.{GatewayImpl, connect, get_network}
use fabric_gateway.Scenario.Utils.{assert_defined}
use fabric_gateway.Scenario.Invocation.{TransactionInvocation, new_transaction_invocation}

-- A gRPC client, as it was made: the server, the name its certificate is checked for, the root
-- certificate and the number of the client.
pub record Connection : Type 0 where
  pub url : String
  pub server_name_override : String
  pub tls_root_cert : Bytes
  pub number : ℕ

-- What a context closes: a gRPC client, or a signer by its number.
pub data Closing : Type 0 where
  client_closed : Connection → Closing
  signer_closed : ℕ → Closing

-- `EventListener` of chaincode events: its iterator and its `close` are those of the events.
pub record EventListener : Type 0 where
  pub events : ChaincodeEvents

unfoldable pub new_event_listener : ChaincodeEvents → EventListener
new_event_listener events = record { events = events }

-- `GatewayContext`. A gateway counts by its signing identity; each object goes with the client that
-- it calls.
pub record GatewayContext : Type 0 where
  pub identity : Identity
  pub signer : Option Signer
  pub signer_close : Option ℕ
  pub client : Option Connection
  pub gateway : Option (SigningIdentity × Connection)
  pub network : Option (NetworkImpl × Connection)
  pub contract : Option (ContractImpl × Connection)
  pub chaincode_event_listeners : Object EventListener

-- The constructor.
unfoldable pub new_gateway_context : Identity → Option Signer → Option ℕ → GatewayContext
new_gateway_context identity signer signer_close = record {
  identity = identity;
  signer = signer;
  signer_close = signer_close;
  client = none;
  gateway = none;
  network = none;
  contract = none;
  chaincode_event_listeners = [];
}

-- A method of a context, which also sees what contexts have closed, the latest first.
abbrev pub ContextMethod : Type 0 → Type 0
ContextMethod A = Method (GatewayContext × List Closing) A

abbrev pub set_context :
    (GatewayContext → GatewayContext)
    → (GatewayContext × List Closing) × History
    → (GatewayContext × List Closing) × History
set_context f ((c, closed), h) = ((f c, closed), h)

abbrev pub required : {A : Type 0} → Option A → String → Result Thrown A
required a property = map_err Thrown.error (assert_defined a property)

unfoldable pub get_gateway : ContextMethod (SigningIdentity × Connection)
unfolding assert_defined
get_gateway = gets (λ s. s.0.0) >>= λ c. of_result (required c.gateway "gateway")

unfoldable pub current_network : ContextMethod (NetworkImpl × Connection)
unfolding assert_defined
current_network = gets (λ s. s.0.0) >>= λ c. of_result (required c.network "network")

unfoldable pub current_contract : ContextMethod (ContractImpl × Connection)
unfolding assert_defined
current_contract = gets (λ s. s.0.0) >>= λ c. of_result (required c.contract "contract")

unfoldable pub get_chaincode_event_listener : String → ContextMethod EventListener
unfolding assert_defined
get_chaincode_event_listener name = gets (λ s. s.0.0) >>= λ c.
    of_result (required (get name c.chaincode_event_listeners) ("chaincodeEventListener: " ++ name))

abbrev no_default_options : DefaultCallOptions
no_default_options = record {
  evaluate_options = none;
  endorse_options = none;
  submit_options = none;
  commit_status_options = none;
  chaincode_events_options = none;
}

abbrev identity_of : Result JsError GatewayImpl → Result Thrown SigningIdentity
identity_of (ok g) = ok g.signing_identity
identity_of (err e) = err (Thrown.error e)

abbrev pub close_listener : Option EventListener → ContextMethod (Unit {0})
close_listener none = pure tt
close_listener (some l) = on_history l.events.close

abbrev pub close_entry : String × EventListener → ContextMethod (Unit {0})
close_entry (name, l) = on_history l.events.close

abbrev pub close_as : {A : Type 0} → (A → Closing) → Option A → ContextMethod (Unit {0})
close_as closing none = pure tt
close_as closing (some a) = modify (λ s. ((s.0.0, closing a ∷ s.0.1), s.1))

unfoldable pub close_chaincode_events : String → ContextMethod (Unit {0})
close_chaincode_events name =
    gets (λ s. s.0.0) >>= λ c. close_listener (get name c.chaincode_event_listeners)

-- The gateway's own `close` does nothing.
unfoldable pub close : ContextMethod (Unit {0})
close = do
  c ← gets (λ s. s.0.0)
  for_each close_entry c.chaincode_event_listeners
  close_as client_closed c.client
  close_as signer_closed c.signer_close

unfoldable pub use_network : String → ContextMethod (Unit {0})
unfolding get_gateway
use_network channel_name = do
  gateway ← get_gateway
  modify (
      set_context (λ c. record c {
        network =
            some (record { signing_identity = gateway.0; channel_name = channel_name }, gateway.1);
        contract = none;
      }))

unfoldable pub use_contract : String → ContextMethod (Unit {0})
unfolding current_network
use_contract contract_name = do
  network ← current_network
  modify (
      set_context
        (λ c. record c { contract = some (get_contract network.0 contract_name none, network.1) }))

-- The transaction, and the client of its contract.
unfoldable pub new_transaction :
    String → String → ContextMethod (TransactionInvocation × Connection)
unfolding get_gateway current_contract
new_transaction action transaction_name = do
  gateway ← get_gateway
  contract ← current_contract
  i ← of_result (
      map_err Thrown.error
        (new_transaction_invocation action gateway.0 contract.0 transaction_name))
  pure (i, contract.1)

module _ (pb : Protos) (node : Platform) (clients : Connection → GatewayGrpcClient) where
  abbrev pub connected : Connection → GatewayContext → Result Thrown SigningIdentity
  connected connection c = identity_of (
      connect pb node (record {
        client = some (clients connection);
        identity = some c.identity;
        signer = c.signer;
        hash = none;
        default_options = no_default_options;
      }))

  -- `connect`
  unfoldable pub connect_to : Connection → ContextMethod (Unit {0})
  connect_to connection = do
    modify (set_context (λ c. record c { client = some connection }))
    c ← gets (λ s. s.0.0)
    gateway ← of_result (connected connection c)
    modify (set_context (λ c. record c { gateway = some (gateway, connection) }))

  abbrev pub client_of : Connection → GatewayClient
  client_of connection = record { grpc = clients connection; default_options = no_default_options }
