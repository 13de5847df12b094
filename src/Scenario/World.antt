-- ===== src/Scenario/World.antt =====
-- scenario/node/src/customworld.ts: what the steps of one scenario share. A gateway context is an
-- object that the map of gateways and the current gateway may both refer to; a reference is its
-- number in the order of creation.
pub mod Calls
pub mod Blocks
pub mod Contexts
pub mod Released
pub mod Named
use fabric_gateway.Base.{ℕ, ◌+◌, String, Option, none, some, List, [], ◌∷◌, ◌==◌, if◌then◌else◌}
use mathlib.Core.List.{◌++◌ as append}
use fabric_gateway.Js.{Value}
use fabric_gateway.Js.Number.{pos}
use fabric_gateway.Js.Object.{Object, get, put}
use fabric_gateway.Effect.{Result, ok, err, map_err, pure, of_result, gets, modify, ◌>>=◌, ◌>>◌}
use fabric_gateway.Effect.Whole.{for_each, discard}
use fabric_gateway.Errors.{JsError, Thrown, History, Method}
use fabric_gateway.Platform.{Platform}
use fabric_gateway.Protos.{Protos}
use fabric_gateway.Signing.{Identity, Signer}
use fabric_gateway.Client.{GatewayGrpcClient}
use fabric_gateway.Events.{ChaincodeEvent}
use fabric_gateway.ProposalBuilder.{ProposalOptions}
use fabric_gateway.Scenario.Utils.{Inspection, assert_defined}
use fabric_gateway.Scenario.Fabric.{Host}
use fabric_gateway.Scenario.Fixtures.{
  Files, ConnectionInfo, peer_connection_info, new_identity, new_signer,
}
use fabric_gateway.Scenario.HsmUsers.{HsmState}
use fabric_gateway.Scenario.Invocation.{
  TransactionInvocation, set_offline_signer, get_result_text, get_error, get_block_number,
}
use fabric_gateway.Scenario.Invocation
use fabric_gateway.Scenario.Context.{
  Connection, Closing, GatewayContext, ContextMethod, new_gateway_context, connect_to, client_of,
}
use fabric_gateway.Scenario.Context
use fabric_gateway.Scenario.Context.Listening

pub record CustomWorld : Type 0 where
  pub contexts : ℕ → GatewayContext
  pub contexts_made : ℕ
  pub closed : List Closing
  pub clients_made : ℕ
  pub gateways : Object ℕ
  pub current_gateway : Option ℕ
  pub transaction : Option (TransactionInvocation × Connection)
  pub last_committed_block_number : ℕ
  pub hsm : HsmState

-- The fields of a new object. No reference is to the contexts that it starts with. The variable of the
-- module and the PKCS#11 library are as the world before left them.
abbrev pub new_world : HsmState → CustomWorld
new_world hsm = record {
  contexts = λ n. new_gateway_context (record { msp_id = ""; credentials = [] }) none none;
  contexts_made = 0;
  closed = [];
  clients_made = 0;
  gateways = [];
  current_gateway = none;
  transaction = none;
  last_committed_block_number = 0;
  hsm = hsm;
}

abbrev pub WorldMethod : Type 0 → Type 0
WorldMethod A = Method CustomWorld A

abbrev pub set_world : (CustomWorld → CustomWorld) → CustomWorld × History → CustomWorld × History
set_world f (w, h) = (f w, h)

abbrev required : {A : Type 0} → Option A → String → Result Thrown A
required a property = map_err Thrown.error (assert_defined a property)

unfoldable pub get_current_gateway : WorldMethod ℕ
unfolding assert_defined
get_current_gateway =
    gets (λ s. s.0) >>= λ w. of_result (required w.current_gateway "currentGateway")

unfoldable pub get_transaction : WorldMethod (TransactionInvocation × Connection)
unfolding assert_defined
get_transaction = gets (λ s. s.0) >>= λ w. of_result (required w.transaction "transaction")

abbrev pub of_type : {T : Type 0} → Option T → Thrown → Result Thrown T
of_type none failure = err failure
of_type (some e) failure = ok e

-- What a context's method leaves, put back.
abbrev pub put_back :
    {A : Type 0}
    → ℕ
    → CustomWorld
    → Result Thrown A × ((GatewayContext × List Closing) × History)
    → Result Thrown A × (CustomWorld × History)
put_back n w (r, ((c, closed), h)) =
    (r, (record w { contexts = λ m. if m == n then c else w.contexts m; closed = closed }, h))

-- A method of the context that a reference is to.
abbrev pub run_context : {A : Type 0} → ContextMethod A → ℕ → WorldMethod A
run_context m n (w, h) = put_back n w (m ((w.contexts n, w.closed), h))

abbrev pub values : {V : Type 0} → Object V → List V
values [] = []
values ((k, v) ∷ o) = v ∷ values o

-- `new GatewayContext(…)`, under a name.
unfoldable pub add_context : String → GatewayContext → WorldMethod (Unit {0})
add_context name c = modify (
    set_world (λ w. record w {
      contexts = λ m. if m == w.contexts_made then c else w.contexts m;
      contexts_made = w.contexts_made + 1;
      gateways = put name w.contexts_made w.gateways;
      current_gateway = some w.contexts_made;
    }))

unfoldable pub use_gateway : String → WorldMethod (Unit {0})
use_gateway name = modify (set_world (λ w. record w { current_gateway = get name w.gateways }))

unfoldable pub on_current : {A : Type 0} → ContextMethod A → WorldMethod A
unfolding get_current_gateway
on_current m = get_current_gateway >>= run_context m

unfoldable pub use_network : String → WorldMethod (Unit {0})
unfolding on_current
use_network channel_name = on_current (Context.use_network channel_name)

unfoldable pub use_contract : String → WorldMethod (Unit {0})
unfolding on_current
use_contract contract_name = on_current (Context.use_contract contract_name)

abbrev pub set_transaction : TransactionInvocation × Connection → CustomWorld → CustomWorld
set_transaction i w = record w { transaction = some i }

unfoldable pub prepare_transaction : String → String → WorldMethod (Unit {0})
unfolding on_current
prepare_transaction action transaction_name = do
  i ← on_current (Context.new_transaction action transaction_name)
  modify (set_world (set_transaction i))

-- A change of the options of the transaction.
abbrev change_options : (ProposalOptions → ProposalOptions) → WorldMethod (Unit {0})
change_options f = do
  i ← get_transaction
  modify (set_world (set_transaction (record (i.0) { options = f i.0.options }, i.1)))

-- `JSON.parse` of a list of arguments, as far as the library takes it.
unfoldable pub set_arguments :
    (String → Result JsError (List Value)) → String → WorldMethod (Unit {0})
unfolding get_transaction
set_arguments parse json = do
  args ← of_result (map_err Thrown.error (parse json))
  change_options (λ o. record o { arguments = some args })

-- The rows of a data table.
unfoldable pub set_transient_data : Object Value → WorldMethod (Unit {0})
unfolding get_transaction
set_transient_data rows = change_options (λ o. record o { transient_data = some rows })

unfoldable pub set_endorsing_orgs :
    (String → Result JsError (List String)) → String → WorldMethod (Unit {0})
unfolding get_transaction
set_endorsing_orgs parse json = do
  orgs ← of_result (map_err Thrown.error (parse json))
  change_options (λ o. record o { endorsing_organizations = some orgs })

unfoldable pub next_chaincode_event : ℕ → String → WorldMethod (Option (Option ChaincodeEvent))
unfolding on_current
next_chaincode_event fuel name = on_current (Listening.next_chaincode_event fuel name)

unfoldable pub close_chaincode_events : String → WorldMethod (Unit {0})
unfolding on_current
close_chaincode_events name = on_current (Context.close_chaincode_events name)

unfoldable pub get_result : Inspection → WorldMethod String
unfolding get_transaction get_result_text
get_result util = do
  i ← get_transaction
  of_result (map_err Thrown.error (get_result_text util i.0))

unfoldable pub last_error : Inspection → WorldMethod Thrown
unfolding get_transaction get_error
last_error util = do i ← get_transaction; of_result (map_err Thrown.error (get_error util i.0))

-- `getErrorOfType`, by a test for the class that gives the error as one of it.
unfoldable pub get_error_of_type :
    {T : Type 0} → (Thrown → Option T) → (Thrown → JsError) → Inspection → WorldMethod T
unfolding last_error
get_error_of_type test not_a_type util = do
  e ← last_error util
  of_result (of_type (test e) (Thrown.error (not_a_type e)))

unfoldable pub get_last_committed_block_number : CustomWorld → ℕ
get_last_committed_block_number w = w.last_committed_block_number

unfoldable pub close : WorldMethod (Unit {0})
close = do
  w ← gets (λ s. s.0)
  for_each (run_context Context.close) (values w.gateways)
  modify (set_world (λ w. record w { gateways = []; current_gateway = none }))
