-- ===== src/Scenario/Steps.antt =====
-- scenario/node/src/scenario_steps.ts: the steps that scenarios are written in, and the hooks. Cucumber
-- matches the texts with the steps, reads tables, and fails a step that takes too long; the assertion
-- library, `JSON.parse` and the status codes of gRPC are parameters too.
use Prim.Native.String.{◌++◌}
use text.Mathlib.Text.{◌==◌}
use fabric_gateway.Base.{ℕ, String, Option, none, some, List, Bool, true, false, ◌&&◌}
use fabric_gateway.Base.{◌==◌ as is_same}
use fabric_gateway.Js.{Value, JsValue}
use fabric_gateway.Js.Object.{Object}
use fabric_gateway.Effect.{Result, ok, err, Step, of_result, gets, ◌>>=◌}
use fabric_gateway.Errors.{JsError, Thrown, ErrorDetail, History}
use fabric_gateway.Platform.{Platform}
use fabric_gateway.Protos.{Protos}
use fabric_gateway.Client.{GatewayGrpcClient}
use fabric_gateway.Events.{ChaincodeEvent}
use fabric_gateway.Scenario.Utils.{Inspection, to_error}
use fabric_gateway.Scenario.Fabric.{
  Host, Fabric, Log, Driver, deploy_network, generate_hsm_user, stop_peer, start_peer,
}
use fabric_gateway.Scenario.Fabric.Channels.{create_channels}
use fabric_gateway.Scenario.Fabric.Chaincode.{Deployment, deploy_chaincode}
use fabric_gateway.Scenario.Fixtures.{Files}
use fabric_gateway.Scenario.HsmUsers.{Tokens}
use fabric_gateway.Scenario.Context.{Connection}
use fabric_gateway.Scenario.Details.{error_details_should_be, gateway_error_of}
use fabric_gateway.Scenario.World.{CustomWorld, WorldMethod}
use fabric_gateway.Scenario.World
use fabric_gateway.Scenario.World.Calls

-- A step of a scenario, with what is read from its text or its table.
pub data ScenarioStep : Type 0 where
  deployed_network joined_channels : ScenarioStep
  deploying : Deployment → ScenarioStep
  registered_hsm_user : String → ScenarioStep
  created_gateway created_hsm_gateway created_unsigned_gateway :
      (name user msp_id : String) → ScenarioStep
  use_gateway connect_gateway use_network use_contract : String → ScenarioStep
  stop_peer_named start_peer_named : String → ScenarioStep
  prepare : (action transaction_name : String) → ScenarioStep
  set_arguments : String → ScenarioStep
  set_transient_data : Object Value → ScenarioStep
  set_endorsing_orgs : String → ScenarioStep
  sign_offline : (user msp_id : String) → ScenarioStep
  invoke : ScenarioStep
  listen : (chaincode_name : String) → ScenarioStep
  listen_on : (chaincode_name listener_name : String) → ScenarioStep
  replay : (chaincode_name : String) → ScenarioStep
  stop_listening : ScenarioStep
  stop_listening_on : String → ScenarioStep
  invocation_fails : ScenarioStep
  response_matches response_is error_contains : String → ScenarioStep
  error_details_are : List ErrorDetail → ScenarioStep
  error_status_is : String → ScenarioStep
  receive_event : (event_name payload : String) → ScenarioStep
  receive_event_on : (event_name payload listener_name : String) → ScenarioStep

-- What the steps take from elsewhere. `failed` is what a failed expectation throws, `undefined` the
-- error of reading a property of nothing, and `timed_out` that of Cucumber; `fuel` is for reading the
-- responses of an event stream.
pub record Surroundings : Type 1 where
  pub protos : Protos
  pub node : Platform
  pub clients : Connection → GatewayGrpcClient
  pub host : Host
  pub files : Files
  pub tokens : Tokens
  pub util : Inspection
  pub parse_arguments : String → Result JsError (List Value)
  pub parse_organizations : String → Result JsError (List String)
  pub Json : Type 0
  pub parse : String → Result JsError Json
  pub equal : Json → Json → Bool
  pub contains : String → String → Bool
  pub status : String → Option ℕ
  pub not_a_type : Thrown → JsError
  pub failed : Thrown
  pub undefined : Thrown
  pub timed_out : Thrown
  pub fuel : ℕ

abbrev pub default_listener_name : String
default_listener_name = ""

-- `JSON.parse` throws errors of class `SyntaxError` only.
abbrev with_text : String → Thrown → Thrown
with_text json (Thrown.error e) = Thrown.error (record e { message = e.message ++ ": " ++ json })
with_text json e = e

-- The message of what was thrown.
abbrev pub message_of : Thrown → String
message_of (Thrown.error e) = e.message
message_of (Thrown.suppressed e es) = e.message
message_of (Thrown.gateway_error g) = g.message
message_of (Thrown.endorse_error g id) = g.message
message_of (Thrown.submit_error g id) = g.message
message_of (Thrown.commit_status_error g id) = g.message
message_of (Thrown.commit_error e) = e.message
message_of (Thrown.uncaught e) = e.message

-- `toMatchObject({ code: expectedCode })`
abbrev pub is_code : JsValue → Option ℕ → Bool
is_code (JsValue.number n) (some k) = is_same n k
is_code (JsValue.number n) none = false
is_code JsValue.undefined (some k) = false
is_code JsValue.undefined none = true
is_code (JsValue.str s) k = false
is_code JsValue.other k = false

-- The variable `fabric`, and the world of the scenario.
abbrev pub Suite : Type 0
Suite = (Fabric × Log) × (CustomWorld × History)

abbrev pub SuiteStep : Type 0 → Type 0
SuiteStep A = Step Thrown Suite A

abbrev pub on_fabric : {A : Type 0} → Driver A → SuiteStep A
on_fabric m (f, w) = let (r, f') = m f in (r, (f', w))

abbrev pub on_world : {A : Type 0} → WorldMethod A → SuiteStep A
on_world m (f, w) = let (r, w') = m w in (r, (f, w'))

module _ (x : Surroundings) where
  unfoldable pub parse_json : String → Result Thrown x.Json
  parse_json json = elim (x.parse json) [
    | ok value ↦ ok value
    | err e ↦ err (with_text json (to_error x.util (Thrown.error e)))
  ]

  abbrev pub expect : Bool → Result Thrown (Unit {0})
  expect true = ok tt
  expect false = err x.failed

  -- The body of the step that compares JSON.
  unfoldable pub response_should_match : String → WorldMethod (Unit {0})
  unfolding parse_json
  response_should_match doc_string = do
    result_text ← World.get_result x.util
    actual ← of_result (parse_json result_text)
    expected ← of_result (parse_json doc_string)
    of_result (expect (x.equal actual expected))

  abbrev is_event : String → String → ChaincodeEvent → Bool
  is_event event_name payload event =
      (event.event_name == event_name) && (x.util.decode event.payload == payload)

  -- A listener that has ended gives nothing, whose payload cannot be read; one that has nothing to give
  -- keeps the step waiting.
  abbrev expect_event : String → String → Option (Option ChaincodeEvent) → Result Thrown (Unit {0})
  expect_event event_name payload none = err x.timed_out
  expect_event event_name payload (some none) = err x.undefined
  expect_event event_name payload (some (some event)) = expect (is_event event_name payload event)

  unfoldable pub should_receive : String → String → String → WorldMethod (Unit {0})
  should_receive event_name payload listener_name = do
    event ← World.next_chaincode_event x.fuel listener_name
    of_result (expect_event event_name payload event)

  unfoldable pub perform : ScenarioStep → SuiteStep (Unit {0})
  unfolding response_should_match should_receive
  perform deployed_network = on_fabric (deploy_network x.host)
  perform joined_channels = on_fabric (create_channels x.host)
  perform (deploying d) = on_fabric (deploy_chaincode x.host d)
  perform (registered_hsm_user user) = on_fabric (generate_hsm_user x.host user)
  perform (created_gateway name user msp_id) =
      on_world (Calls.create_gateway x.host x.files name user msp_id)
  perform (created_hsm_gateway name user msp_id) =
      on_world (Calls.create_gateway_with_hsm_user x.host x.files x.node x.tokens name user msp_id)
  perform (created_unsigned_gateway name user msp_id) =
      on_world (Calls.create_gateway_without_signer x.host x.files name user msp_id)
  perform (use_gateway name) = on_world (World.use_gateway name)
  perform (connect_gateway address) =
      on_world (Calls.connect x.host x.files x.protos x.node x.clients x.undefined address)
  perform (use_network channel_name) = on_world (World.use_network channel_name)
  perform (use_contract contract_name) = on_world (World.use_contract contract_name)
  perform (stop_peer_named peer) = on_fabric (stop_peer x.host peer)
  perform (start_peer_named peer) = on_fabric (start_peer x.host peer)
  perform (prepare action transaction_name) =
      on_world (World.prepare_transaction action transaction_name)
  perform (set_arguments json_args) = on_world (World.set_arguments x.parse_arguments json_args)
  perform (set_transient_data rows) = on_world (World.set_transient_data rows)
  perform (set_endorsing_orgs json_orgs) =
      on_world (World.set_endorsing_orgs x.parse_organizations json_orgs)
  perform (sign_offline user msp_id) =
      on_world (Calls.set_offline_signer x.host x.files user msp_id)
  perform invoke = on_world (Calls.invoke_successful_transaction x.protos x.node x.clients x.util)
  perform (listen chaincode_name) = on_world (
      Calls.listen_for_chaincode_events x.protos x.node x.clients default_listener_name
        chaincode_name)
  perform (listen_on chaincode_name listener_name) =
      on_world
        (Calls.listen_for_chaincode_events x.protos x.node x.clients listener_name chaincode_name)
  perform (replay chaincode_name) = on_world (
      gets (λ s. World.get_last_committed_block_number s.0)
      >>= Calls.replay_chaincode_events x.protos x.node x.clients default_listener_name
          chaincode_name)
  perform stop_listening = on_world (World.close_chaincode_events default_listener_name)
  perform (stop_listening_on listener_name) = on_world (World.close_chaincode_events listener_name)
  perform invocation_fails =
      on_world (Calls.assert_transaction_fails x.protos x.node x.clients x.util)
  perform (response_matches doc_string) = on_world (response_should_match doc_string)
  perform (response_is expected) =
      on_world (World.get_result x.util >>= λ actual. of_result (expect (actual == expected)))
  perform (error_contains expected) =
      on_world
        (World.last_error x.util >>= λ e. of_result (expect (x.contains (message_of e) expected)))
  perform (error_details_are rows) = on_world (
      World.get_error_of_type gateway_error_of x.not_a_type x.util >>= λ e.
      of_result (error_details_should_be x.contains x.failed e rows))
  perform (error_status_is expected) = on_world (
      World.get_error_of_type gateway_error_of x.not_a_type x.util >>= λ actual.
      of_result (expect (is_code actual.code (x.status expected))))
  perform (receive_event event_name payload) =
      on_world (should_receive event_name payload default_listener_name)
  perform (receive_event_on event_name payload listener_name) =
      on_world (should_receive event_name payload listener_name)
