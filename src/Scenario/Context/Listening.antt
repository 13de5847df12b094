-- ===== src/Scenario/Context/Listening.antt =====
-- Listening for chaincode events: scenario/node/src/gatewaycontext.ts and eventlistener.ts.
use fabric_gateway.Base.{ℕ, String, Option, none, some}
use fabric_gateway.Js.Object.{put}
use fabric_gateway.Effect.{Result, ok, err, pure, of_result, modify, on_history, ◌>>=◌, ◌>>◌}
use fabric_gateway.Errors.{Thrown}
use fabric_gateway.Platform.{Platform}
use fabric_gateway.Protos.{Protos}
use fabric_gateway.Client.{GatewayGrpcClient, Read, value, done, failed}
use fabric_gateway.Network.{NetworkImpl, get_chaincode_events}
use fabric_gateway.Events.{ChaincodeEvent, ChaincodeEvents, Generator}
use fabric_gateway.Events
use fabric_gateway.Events.Request.{ChaincodeEventsOptions}
use fabric_gateway.Scenario.Context.{
  Connection, EventListener, new_event_listener, ContextMethod, set_context, current_network,
  get_chaincode_event_listener, close_chaincode_events, client_of,
}

-- What a listener's `next` gives: the event of a result that has one, and else nothing.
abbrev pub event_of : Read Thrown ChaincodeEvent → Result Thrown (Option ChaincodeEvent)
event_of (value e) = ok (some e)
event_of done = ok none
event_of (failed x) = err x

unfoldable pub set_listener : String → EventListener → ContextMethod (Unit {0})
set_listener name l = modify (
    set_context
      (λ c. record c { chaincode_event_listeners = put name l c.chaincode_event_listeners }))

abbrev pub advance :
    String
    → EventListener
    → Option (Read Thrown ChaincodeEvent × Generator)
    → ContextMethod (Option (Option ChaincodeEvent))
advance name l none = pure none
advance name l (some (read, g)) = do
  set_listener name (record { events = record (l.events) { generator = g } })
  e ← of_result (event_of read)
  pure (some e)

-- `nextChaincodeEvent`; `none` where the fuel for reading responses has run out.
unfoldable pub next_chaincode_event : ℕ → String → ContextMethod (Option (Option ChaincodeEvent))
unfolding get_chaincode_event_listener set_listener
next_chaincode_event fuel name = do
  l ← get_chaincode_event_listener name
  advance name l (Events.next fuel l.events.responses l.events.generator)

module _ (pb : Protos) (node : Platform) (clients : Connection → GatewayGrpcClient) where
  unfoldable pub open_events :
      NetworkImpl × Connection
      → String
      → Option ChaincodeEventsOptions
      → ContextMethod ChaincodeEvents
  open_events (n, connection) chaincode_name options =
      on_history
        (get_chaincode_events pb (client_of pb node clients connection) n chaincode_name options)

  unfoldable pub listen_for_chaincode_events :
      String → String → Option ChaincodeEventsOptions → ContextMethod (Unit {0})
  unfolding close_chaincode_events current_network new_event_listener open_events set_listener
  listen_for_chaincode_events listener_name chaincode_name options = do
    close_chaincode_events listener_name
    network ← current_network
    events ← open_events network chaincode_name options
    set_listener listener_name (new_event_listener events)
