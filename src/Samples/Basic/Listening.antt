-- ===== src/Samples/Basic/Listening.antt =====
-- The examples in samples/node/src/sample.ts that listen for events or handle errors.
use Prim.Native.String.{◌++◌}
use fabric_gateway.Base.{ℕ, String, Option, none, some, List, [], ◌∷◌}
use fabric_gateway.Js.{text}
use fabric_gateway.Js.Number.{pos}
use fabric_gateway.Js.Text.{number_to_string}
use fabric_gateway.Effect.{pure, throw, call_on, ◌>>=◌, ◌>>◌}
use fabric_gateway.Effect.Whole.{for_each, discard}
use fabric_gateway.Errors.{Thrown, ErrorDetail}
use fabric_gateway.Platform.{Platform}
use fabric_gateway.Protos.{Protos}
use fabric_gateway.Client.{Read, value, done, failed}
use fabric_gateway.Contract.{submit_async}
use fabric_gateway.Commit.{get_status}
use fabric_gateway.Events.{ChaincodeEvent, ChaincodeEvents, Generator}
use fabric_gateway.Events
use fabric_gateway.Events.Request.{ChaincodeEventsOptions}
use fabric_gateway.Network.{get_contract, get_chaincode_events}
use fabric_gateway.Gateway.{GatewayImpl, get_network}
use fabric_gateway.Samples.Runtime.{
  Setting, thrown, waiting, Sample, call, log, try_finally, try_catch,
}
use fabric_gateway.Samples.Basic.Examples.{
  failed_to_commit, require_successful, with_arguments, channel, contract, bytes_as_string,
  submitted,
}

-- Parts of the errors, as they are printed.
abbrev endpoint_lines : List ErrorDetail → List (List String)
endpoint_lines [] = []
endpoint_lines (detail ∷ details) =
    (("Error from endpoint: " ++ detail.address ++ ", mspId: " ++ detail.msp_id ++ ", message: "
        ++ detail.message)
      ∷ [])
    ∷ endpoint_lines details

-- What the `catch` of `exampleErrorHandling` prints after the error.
unfoldable pub error_lines : Thrown → List (List String)
error_lines (Thrown.endorse_error g id) = endpoint_lines g.details
error_lines (Thrown.submit_error g id) = endpoint_lines g.details
error_lines (Thrown.commit_status_error g id) = endpoint_lines g.details
error_lines (Thrown.commit_error e) = (failed_to_commit e.transaction_id e.code ∷ []) ∷ []
error_lines (Thrown.gateway_error g) = []
error_lines (Thrown.error e) = []
error_lines (Thrown.suppressed e es) = []
error_lines (Thrown.uncaught e) = []

module _ (pb : Protos) (node : Platform) (setting : Setting) (g : GatewayImpl) where
  abbrev log_event : ChaincodeEvent → Sample (Unit {0})
  log_event event = log (
      ("Received event name: "
        ++ event.event_name
        ++ ", payload: "
        ++ bytes_as_string pb node setting g event.payload
        ++ ", txID: "
        ++ event.transaction_id)
      ∷ [])

  -- The body of the loop over events, which it leaves after the first one.
  abbrev pub on_read : Option (Read Thrown ChaincodeEvent × Generator) → Sample (Unit {0})
  on_read none = throw waiting
  on_read (some (value event, _)) = log_event event
  on_read (some (done, _)) = pure tt
  on_read (some (failed e, _)) = throw (thrown e)

  -- The loop, with fuel for reading responses.
  abbrev pub read_first : ℕ → ChaincodeEvents → Sample (Unit {0})
  read_first fuel events = on_read (Events.next fuel events.responses events.generator)

  abbrev pub events_of : Option ChaincodeEventsOptions → Sample ChaincodeEvents
  events_of options = call (get_chaincode_events pb g.client (channel g) "basic" options)

  -- The `try` of `exampleChaincodeEvents`.
  abbrev pub submit_and_read : ℕ → ChaincodeEvents → Sample (Unit {0})
  submit_and_read fuel events = do
    log (
        "Submitting \"event\" transaction with arguments:  \"my-event-name\", \"my-event-payload\""
        ∷ [])
    submitted pb node setting g (contract pb node setting g "basic") "event"
        (text "my-event-name" ∷ text "my-event-payload" ∷ [])
    read_first fuel events

  unfoldable pub example_chaincode_events : ℕ → Sample (Unit {0})
  unfolding get_network get_contract
  example_chaincode_events fuel = do
    log ("Read chaincode events" ∷ [])
    events ← events_of none
    try_finally (submit_and_read fuel events) (call events.close)

  unfoldable pub example_chaincode_event_replay : ℕ → Sample (Unit {0})
  unfolding get_network get_contract
  example_chaincode_event_replay fuel = do
    log (
        "Submitting \"event\" transaction with arguments:  \"my-event-name\", \"my-event-replay-payload\""
        ∷ [])
    commit ← call (
        submit_async pb node g.client (contract pb node setting g "basic") "event"
          (with_arguments (text "my-event-name" ∷ text "my-event-replay-payload" ∷ [])))
    status ← call (call_on commit.commit (get_status pb g.client none))
    require_successful status
    log (("Read chaincode events from block number " ++ number_to_string status.block_number) ∷ [])
    events ← events_of (some (record { start_block = some (pos status.block_number) }))
    try_finally (read_first fuel events) (call events.close)

  -- The handler of `exampleErrorHandling`.
  abbrev pub log_error : Thrown → Sample (Unit {0})
  log_error e = log (setting.util.inspect (some e) ∷ []) >> for_each log (error_lines e)

  unfoldable pub example_error_handling : Sample (Unit {0})
  unfolding get_network get_contract error_lines discard
  example_error_handling = do
    log ("Submitting \"put\" transaction without arguments" ∷ [])
    try_catch (discard (submitted pb node setting g (contract pb node setting g "basic") "put" []))
        log_error
