-- ===== src/Samples/Basic/LaterCalls.antt =====
-- The calls of the later examples in samples/node/src/sample.ts.
use fabric_gateway.Base.{ℕ, ◌≡◌, refl, ap, String, Option, none, some, List, [], ◌∷◌, ◌++◌}
use fabric_gateway.Effect.{Result, ok, err, call_on}
use fabric_gateway.Effect.Whole.{for_each}
use fabric_gateway.Effect.Made.{
  calls, method_calls, Makes, Makes->>=, Makes->>=_returned, Makes-call_on, Makes-of_result,
}
use fabric_gateway.Errors.{Thrown, History, M}
use fabric_gateway.Platform.{Platform}
use fabric_gateway.Protos.{Protos}
use fabric_gateway.Client.{
  Read, value, done, failed, evaluate_method, endorse_method, submit_method, commit_status_method,
}
use fabric_gateway.Events.{ChaincodeEvent, ChaincodeEvents, Generator}
use fabric_gateway.Events
use fabric_gateway.Events.Closing.{Cancels, get_events-Makes, get_events-ReturnsEvents}
use fabric_gateway.Events.Request.{ChaincodeEventsOptions, ChaincodeEventsRequestImpl, get_events}
use fabric_gateway.Network.{get_chaincode_events, new_chaincode_events_request}
use fabric_gateway.Gateway.{GatewayImpl, close}
use fabric_gateway.Samples.Runtime.{Machine, Setting, thrown, waiting, of_call, call, log}
use fabric_gateway.Samples.Made.{
  call-Makes, log-Makes, Makes-discard, IsQuiet, log-IsQuiet, IsQuiet->>=,
}
use fabric_gateway.Samples.Made.Some.{
  MakesSome, MakesSome->>=, MakesSome-try_catch, Makes-try_finally,
}
use fabric_gateway.Samples.Basic.Examples.{example_state_based_endorsement, channel}
use fabric_gateway.Samples.Basic.Listening.{
  example_chaincode_events, example_chaincode_event_replay, example_error_handling, on_read,
  read_first, events_of, submit_and_read, log_error, error_lines,
}
use fabric_gateway.Samples.Basic.Calls.{
  submission, submitted-Makes, async-Makes, status-Makes, require_successful-Makes, log_then,
  query_state-Makes, submitted_then,
}

-- The calls of the example of endorsement policies by key.
abbrev pub endorsement_calls : List String
endorsement_calls =
    submission
    ++ (evaluate_method ∷ submission)
    ++ (evaluate_method ∷ submission)
    ++ submission
    ++ evaluate_method ∷ []

returned_events :
    (t : Machine) (x : Result Thrown ChaincodeEvents × History) (events : ChaincodeEvents)
    (s : Machine × History)
    → of_call t x ≡ (ok events, s)
    → x.0 ≡ ok events
returned_events t (ok e, h) events s r = cc
returned_events t (err e, h) events s r = cc

on_fresh :
    (r : ChaincodeEventsRequestImpl) (pb : Protos) (g : GatewayImpl) (h : History)
    (events : ChaincodeEvents)
    → (call_on r (get_events pb g.client none) h).0 ≡ ok events
    → Cancels events.close
on_fresh r pb g h events e = get_events-ReturnsEvents pb g.client none (r, h) events e

module _ (pb : Protos) (node : Platform) (setting : Setting) (g : GatewayImpl) where
  pub example_state_based_endorsement-Makes :
      Makes method_calls endorsement_calls (example_state_based_endorsement pb node setting g)
  unfolding example_state_based_endorsement
  example_state_based_endorsement-Makes =
      let third = submission ++ submission ++ evaluate_method ∷ [] in
      let second = submission ++ evaluate_method ∷ third in
      submitted_then pb node setting g (evaluate_method ∷ second) _ _ _ _ (
        Makes->>= (evaluate_method ∷ []) second (query_state-Makes pb node setting g) λ _.
          submitted_then pb node setting g (evaluate_method ∷ third) _ _ _ _ (
            Makes->>= (evaluate_method ∷ []) third (query_state-Makes pb node setting g) λ _.
              submitted_then pb node setting g (submission ++ evaluate_method ∷ []) _ _ _ _ (
                submitted_then pb node setting g (evaluate_method ∷ []) _ _ _ _
                  (query_state-Makes pb node setting g))))

  on_read-Makes :
      (r : Option (Read Thrown ChaincodeEvent × Generator))
      → Makes method_calls [] (on_read pb node setting g r)
  on_read-Makes none = Makes-of_result (err waiting)
  on_read-Makes (some (value event, _)) = log-Makes _
  on_read-Makes (some (done, _)) = Makes-of_result (ok tt)
  on_read-Makes (some (failed e, _)) = Makes-of_result (err (thrown e))

  cancel-IsQuiet : (close : M (Unit {0})) → Cancels close → IsQuiet (call close)
  unfolding call
  cancel-IsQuiet close e = record { at = λ s. ap (λ (m : M (Unit {0})). calls (m s.1).1) e }

  events_of-Makes :
      (options : Option ChaincodeEventsOptions)
      → Makes method_calls [] (events_of pb node setting g options)
  unfolding get_chaincode_events
  events_of-Makes options = call-Makes [] (
      Makes-call_on (new_chaincode_events_request pb (channel g) "basic" options)
        (get_events-Makes pb g.client none))

  events_of-Cancels :
      (options : Option ChaincodeEventsOptions) (s : Machine × History) (events : ChaincodeEvents)
      (s' : Machine × History)
      → events_of pb node setting g options s ≡ (ok events, s')
      → Cancels events.close
  unfolding get_chaincode_events call
  events_of-Cancels options s events s' r =
      on_fresh (new_chaincode_events_request pb (channel g) "basic" options) pb g s.1 events (
        returned_events s.0 (get_chaincode_events pb g.client (channel g) "basic" options s.1)
          events s' r)

  pub example_chaincode_events-Makes :
      (fuel : ℕ) → Makes method_calls submission (example_chaincode_events pb node setting g fuel)
  unfolding example_chaincode_events
  example_chaincode_events-Makes fuel = log_then pb node setting g submission _ (
      Makes->>=_returned [] submission (events_of-Makes none) λ s events s' e.
        Makes-try_finally submission (submit_and_read pb node setting g fuel events)
          (call events.close)
          (submitted_then pb node setting g [] _ _ _ _
            (on_read-Makes (Events.next fuel events.responses events.generator)))
          (cancel-IsQuiet events.close (events_of-Cancels none s events s' e)))

  pub example_chaincode_event_replay-Makes :
      (fuel : ℕ)
      → Makes method_calls submission (example_chaincode_event_replay pb node setting g fuel)
  unfolding example_chaincode_event_replay
  example_chaincode_event_replay-Makes fuel = log_then pb node setting g submission _ (
      Makes->>= (endorse_method ∷ submit_method ∷ []) (commit_status_method ∷ [])
        (async-Makes pb node setting g _ _ _)
        λ commit.
          Makes->>= (commit_status_method ∷ []) [] (status-Makes pb node setting g commit) λ status.
            Makes->>= [] [] (require_successful-Makes pb node setting g status) λ _.
              log_then pb node setting g [] _ (
                Makes->>=_returned [] [] (events_of-Makes _) λ s events s' e.
                  Makes-try_finally [] (read_first pb node setting g fuel events)
                    (call events.close)
                    (on_read-Makes (Events.next fuel events.responses events.generator))
                    (cancel-IsQuiet events.close (events_of-Cancels _ s events s' e))))

  lines-IsQuiet : (lines : List (List String)) → IsQuiet (for_each log lines)
  lines-IsQuiet [] = record { at = λ s. refl }
  lines-IsQuiet (line ∷ lines) = IsQuiet->>= (log-IsQuiet line) λ _. lines-IsQuiet lines

  pub example_error_handling-MakesSome :
      MakesSome [] submission (example_error_handling pb node setting g)
  unfolding example_error_handling
  example_error_handling-MakesSome = MakesSome->>= [] [] submission (log-Makes _) λ _.
      MakesSome-try_catch submission _ (log_error pb node setting g)
        (Makes-discard submission (submitted-Makes pb node setting g _ _ _))
        λ e. IsQuiet->>= (log-IsQuiet _) λ _. lines-IsQuiet (error_lines e)
