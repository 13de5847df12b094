-- ===== src/Scenario/Running/Adding.antt =====
-- What the steps of scenario/node/src/scenario_steps.ts add to the map of gateways.
use fabric_gateway.Base.{ℕ, refl, String, Option, none, some, List, [], ◌∷◌}
use fabric_gateway.Effect.Whole.{Preserves, Preserves->>=, Preserves-of_result}
use fabric_gateway.Errors.{History}
use fabric_gateway.Scenario.Context.{new_transaction}
use fabric_gateway.Scenario.Context
use fabric_gateway.Scenario.Context.Listening
use fabric_gateway.Scenario.Details.{gateway_error_of}
use fabric_gateway.Scenario.World.{CustomWorld, WorldMethod, get_error_of_type, close}
use fabric_gateway.Scenario.World
use fabric_gateway.Scenario.World.Calls
use fabric_gateway.Scenario.World.Contexts
use fabric_gateway.Scenario.World.Contexts.{Same}
use fabric_gateway.Scenario.World.Named.{
  Added, create_gateway-Added, create_gateway_without_signer-Added,
  create_gateway_with_hsm_user-Added,
}
use fabric_gateway.Scenario.Steps.{
  ScenarioStep, Surroundings, Suite, on_world, perform, should_receive, response_should_match,
  parse_json, default_listener_name, deployed_network, joined_channels, deploying,
  registered_hsm_user, created_gateway, created_hsm_gateway, created_unsigned_gateway, use_gateway,
  connect_gateway, use_network, use_contract, stop_peer_named, start_peer_named, prepare,
  set_arguments, set_transient_data, set_endorsing_orgs, sign_offline, invoke, listen, listen_on,
  replay, stop_listening, stop_listening_on, invocation_fails, response_matches, response_is,
  error_contains, error_details_are, error_status_is, receive_event, receive_event_on,
}
use fabric_gateway.Js.Number.{pos}
use fabric_gateway.Events.Request.{ChaincodeEventsOptions}

-- The name of the gateway that a step makes.
abbrev pub gateway_name : ScenarioStep → Option String
gateway_name (ScenarioStep.created_gateway name user msp_id) = some name
gateway_name (ScenarioStep.created_hsm_gateway name user msp_id) = some name
gateway_name (ScenarioStep.created_unsigned_gateway name user msp_id) = some name
gateway_name _ = none

abbrev pub with_name : Option String → List String → List String
with_name none names = names
with_name (some name) names = name ∷ names

abbrev pub gateway_names : List ScenarioStep → List String
gateway_names [] = []
gateway_names (step ∷ steps) = with_name (gateway_name step) (gateway_names steps)

-- At most one context was made, under the name, if there is one.
abbrev pub MayAdd : Option String → CustomWorld → CustomWorld × History → Type 0
MayAdd none w s = Same w.gateways w.contexts_made s
MayAdd (some name) w s = Added name w s

module _ (x : Surroundings) (s : Suite) where
  abbrev before : CustomWorld
  before = s.1.0

  on_world-MayAdd :
      (m : WorldMethod (Unit {0}))
      → Preserves (Same before.gateways before.contexts_made) m
      → MayAdd none before (on_world m s).1.1
  on_world-MayAdd m k = k.at s.1 (refl, refl)

  abbrev Still : {A : Type 0} → WorldMethod A → Type 0
  Still m = Preserves (Same before.gateways before.contexts_made) m

  listens :
      (name chaincode : String) (options : Option ChaincodeEventsOptions)
      → MayAdd none before
          (on_world
            (World.on_current (
              Listening.listen_for_chaincode_events x.protos x.node x.clients name chaincode
                options))
            s).1.1
  listens name chaincode options = on_world-MayAdd _ (
      Contexts.on_current-Same _ _
        (Listening.listen_for_chaincode_events x.protos x.node x.clients name chaincode options))

  get_error_of_type-Still : Still (get_error_of_type gateway_error_of x.not_a_type x.util)
  unfolding get_error_of_type
  get_error_of_type-Still =
      Preserves->>= (Contexts.last_error-Same _ _ x.util) λ e. record { at = λ s p. p }

  next_chaincode_event-Still :
      (fuel : ℕ) (name : String) → Still (World.next_chaincode_event fuel name)
  unfolding World.next_chaincode_event
  next_chaincode_event-Still fuel name =
      Contexts.on_current-Same _ _ (Listening.next_chaincode_event fuel name)

  should_receive-Still :
      (event_name payload listener_name : String)
      → Still (should_receive x event_name payload listener_name)
  unfolding should_receive
  should_receive-Still event_name payload listener_name =
      Preserves->>= (next_chaincode_event-Still x.fuel listener_name) λ e. record { at = λ s p. p }

  response_should_match-Still : (doc_string : String) → Still (response_should_match x doc_string)
  unfolding response_should_match
  response_should_match-Still doc_string =
      Preserves->>= (Contexts.get_result-Same _ _ x.util) λ text.
        Preserves->>= (Preserves-of_result (λ _. parse_json x text)) λ actual.
          Preserves->>= (Preserves-of_result (λ _. parse_json x doc_string))
            λ expected. record { at = λ s p. p }

  -- A step makes at most the context that it names.
  pub perform-MayAdd : (p : ScenarioStep) → MayAdd (gateway_name p) before (perform x p s).1.1
  unfolding perform World.use_network World.use_contract World.close_chaincode_events
      Calls.listen_for_chaincode_events Calls.replay_chaincode_events
      World.get_last_committed_block_number
  perform-MayAdd deployed_network = (refl, refl)
  perform-MayAdd joined_channels = (refl, refl)
  perform-MayAdd (deploying d) = (refl, refl)
  perform-MayAdd (registered_hsm_user user) = (refl, refl)
  perform-MayAdd (stop_peer_named peer) = (refl, refl)
  perform-MayAdd (start_peer_named peer) = (refl, refl)
  perform-MayAdd (created_gateway name user msp_id) =
      create_gateway-Added x.host x.files name user msp_id before s.1.1
  perform-MayAdd (created_hsm_gateway name user msp_id) =
      create_gateway_with_hsm_user-Added x.host x.files name user msp_id before s.1.1 x.node
        x.tokens
  perform-MayAdd (created_unsigned_gateway name user msp_id) =
      create_gateway_without_signer-Added x.host x.files name user msp_id before s.1.1
  perform-MayAdd (use_gateway name) = on_world-MayAdd _ (Contexts.use_gateway-Same _ _ name)
  perform-MayAdd (connect_gateway address) =
      on_world-MayAdd _
        (Contexts.connect-Same _ _ x.protos x.node x.clients x.host x.files x.undefined address)
  perform-MayAdd (use_network name) =
      on_world-MayAdd _ (Contexts.on_current-Same _ _ (Context.use_network name))
  perform-MayAdd (use_contract name) =
      on_world-MayAdd _ (Contexts.on_current-Same _ _ (Context.use_contract name))
  perform-MayAdd (prepare action name) =
      on_world-MayAdd _ (Contexts.prepare_transaction-Same _ _ action name)
  perform-MayAdd (set_arguments json) =
      on_world-MayAdd _ (Contexts.set_arguments-Same _ _ x.parse_arguments json)
  perform-MayAdd (set_transient_data rows) =
      on_world-MayAdd _ (Contexts.set_transient_data-Same _ _ rows)
  perform-MayAdd (set_endorsing_orgs json) =
      on_world-MayAdd _ (Contexts.set_endorsing_orgs-Same _ _ x.parse_organizations json)
  perform-MayAdd (sign_offline user msp_id) =
      on_world-MayAdd _ (Contexts.set_offline_signer-Same _ _ x.host x.files user msp_id)
  perform-MayAdd invoke =
      on_world-MayAdd _
        (Contexts.invoke_successful_transaction-Same _ _ x.protos x.node x.clients x.util)
  perform-MayAdd (listen chaincode) = listens default_listener_name chaincode none
  perform-MayAdd (listen_on chaincode name) = listens name chaincode none
  perform-MayAdd (replay chaincode) =
      listens default_listener_name chaincode
        (some (record { start_block = some (pos before.last_committed_block_number) }))
  perform-MayAdd stop_listening =
      on_world-MayAdd _
        (Contexts.on_current-Same _ _ (Context.close_chaincode_events default_listener_name))
  perform-MayAdd (stop_listening_on name) =
      on_world-MayAdd _ (Contexts.on_current-Same _ _ (Context.close_chaincode_events name))
  perform-MayAdd invocation_fails =
      on_world-MayAdd _
        (Contexts.assert_transaction_fails-Same _ _ x.protos x.node x.clients x.util)
  perform-MayAdd (response_matches doc_string) =
      on_world-MayAdd _ (response_should_match-Still doc_string)
  perform-MayAdd (response_is expected) =
      on_world-MayAdd _
        (Preserves->>= (Contexts.get_result-Same _ _ x.util) λ actual. record { at = λ s p. p })
  perform-MayAdd (error_contains expected) =
      on_world-MayAdd _
        (Preserves->>= (Contexts.last_error-Same _ _ x.util) λ e. record { at = λ s p. p })
  perform-MayAdd (error_details_are rows) =
      on_world-MayAdd _ (Preserves->>= get_error_of_type-Still λ e. record { at = λ s p. p })
  perform-MayAdd (error_status_is expected) =
      on_world-MayAdd _ (Preserves->>= get_error_of_type-Still λ e. record { at = λ s p. p })
  perform-MayAdd (receive_event event_name payload) =
      on_world-MayAdd _ (should_receive-Still event_name payload default_listener_name)
  perform-MayAdd (receive_event_on event_name payload name) =
      on_world-MayAdd _ (should_receive-Still event_name payload name)
