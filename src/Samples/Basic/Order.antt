-- ===== src/Samples/Basic/Order.antt =====
-- The order of all calls of the gateway service that samples/node/src/sample.ts makes.
use fabric_gateway.Base.{ℕ, refl, String, List, [], ◌++◌}
use fabric_gateway.Effect.{ok, ◌>>◌}
use fabric_gateway.Effect.Made.{method_calls, Makes}
use fabric_gateway.Platform.{Platform}
use fabric_gateway.Protos.{Protos}
use fabric_gateway.Client.{GatewayGrpcClient}
use fabric_gateway.Gateway.{GatewayImpl, connect, internal_connect, close}
use fabric_gateway.Scenario.Context.{Connection}
use fabric_gateway.Samples.Runtime.{Setting, Sample, call, log, close_connection}
use fabric_gateway.Samples.Made.{log-Makes, attempt-Makes, IsQuiet, log-IsQuiet}
use fabric_gateway.Samples.Made.Some.{
  MakesSome, MakesSome->>=, MakesSome-then, MakesSome-try_finally,
}
use fabric_gateway.Samples.Basic.{run_examples, run_with, main}
use fabric_gateway.Samples.Basic.Calls.{
  submission, submission_and_query, example_submit-Makes, example_submit_async-Makes,
  example_submit_private_data-Makes, example_submit_private_data2-Makes,
}
use fabric_gateway.Samples.Basic.LaterCalls.{
  endorsement_calls, example_state_based_endorsement-Makes, example_chaincode_events-Makes,
  example_chaincode_event_replay-Makes, example_error_handling-MakesSome,
}

-- The calls of the examples before the last one.
abbrev pub calls_before_last : List String
calls_before_last =
    submission_and_query
    ++ (submission_and_query
        ++ (submission_and_query
            ++ (submission_and_query ++ (endorsement_calls ++ (submission ++ submission)))))

-- An example between its title and an empty line.
titled :
    (ms ns ps : List String) (title : List String) {m rest : Sample (Unit {0})}
    → Makes method_calls ms m
    → MakesSome ns ps rest
    → MakesSome (ms ++ ns) ps (log title >> (m >> (log [] >> rest)))
titled ms ns ps title k l =
    MakesSome->>= [] (ms ++ ns) ps (log-Makes title)
      λ _. MakesSome->>= ms ns ps k λ _. MakesSome->>= [] ns ps (log-Makes []) λ _. l

module _ (pb : Protos) (node : Platform) (setting : Setting)
    (clients : Connection → GatewayGrpcClient) (fuel : ℕ) where
  run_examples-MakesSome :
      (g : GatewayImpl)
      → MakesSome calls_before_last submission (run_examples pb node setting clients fuel g)
  unfolding run_examples
  run_examples-MakesSome g =
      let fifth = endorsement_calls ++ (submission ++ submission) in
      let fourth = submission_and_query ++ fifth in
      let third = submission_and_query ++ fourth in
      titled submission_and_query (submission_and_query ++ third) submission _
        (example_submit-Makes pb node setting g)
        (titled submission_and_query third submission _
          (example_submit_async-Makes pb node setting g)
          (titled submission_and_query fourth submission _
            (example_submit_private_data-Makes pb node setting g)
            (titled submission_and_query fifth submission _
              (example_submit_private_data2-Makes pb node setting g)
              (titled endorsement_calls (submission ++ submission) submission _
                (example_state_based_endorsement-Makes pb node setting g)
                (titled submission submission submission _
                  (example_chaincode_events-Makes pb node setting g fuel)
                  (titled submission [] submission _
                    (example_chaincode_event_replay-Makes pb node setting g fuel)
                    (MakesSome->>= [] [] submission (log-Makes _) λ _.
                      MakesSome-then [] submission
                        (example_error_handling-MakesSome pb node setting g)
                        λ _. log-IsQuiet [])))))))

  closing-IsQuiet :
      (g : GatewayImpl) (client : Connection) → IsQuiet (call (close g) >> close_connection client)
  unfolding call close close_connection
  closing-IsQuiet g client = record { at = λ s. refl }

  run_with-MakesSome :
      (client : Connection) (g : GatewayImpl)
      → MakesSome calls_before_last submission (run_with pb node setting clients fuel client (ok g))
  run_with-MakesSome client g =
      MakesSome-try_finally calls_before_last submission
        (run_examples pb node setting clients fuel g) (call (close g) >> close_connection client)
        (run_examples-MakesSome g) (closing-IsQuiet g client)

  -- Where the application returns, it has made the calls of the first seven examples, all of them and in
  -- order, and after them the first few of one more submission, the one that is meant to fail. Where it
  -- throws or waits, the calls that it has made are the first few of all these. They are calls for one
  -- value; event streams are not among them.
  pub main-calls : MakesSome calls_before_last submission (main pb node setting clients fuel)
  unfolding main connect internal_connect
  main-calls = MakesSome->>= [] calls_before_last submission (attempt-Makes _) λ client.
      MakesSome->>= [] calls_before_last submission (attempt-Makes _) λ identity.
        MakesSome->>= [] calls_before_last submission (attempt-Makes _)
          λ signer. run_with-MakesSome client _
