-- ===== src/Samples/Basic/Calls.antt =====
-- The calls of the gateway service that samples/node/src/sample.ts makes.
use fabric_gateway.Base.{String, Option, none, List, [], ◌∷◌, ◌++◌, Bytes, Bool-cases, inl, inr}
use fabric_gateway.Js.{Value}
use fabric_gateway.Effect.{ok, err, call_on, ◌>>=◌, ◌>>◌}
use fabric_gateway.Effect.Made.{method_calls, Makes, Makes->>=, Makes-call_on, Makes-of_result}
use fabric_gateway.Platform.{Platform}
use fabric_gateway.Protos.{Protos}
use fabric_gateway.Client.{evaluate_method, endorse_method, submit_method, commit_status_method}
use fabric_gateway.Status.{Status}
use fabric_gateway.ProposalBuilder.{ProposalOptions}
use fabric_gateway.Contract.{
  ContractImpl, submit, submit_transaction, evaluate_transaction, submit_async,
}
use fabric_gateway.Contract.Calls.{
  submit-calls, evaluate-calls, submit_async-Makes, get_status-Makes,
}
use fabric_gateway.Commit.{SubmittedTransaction, get_status}
use fabric_gateway.Gateway.{GatewayImpl}
use fabric_gateway.Samples.Runtime.{Setting, Sample, call, log}
use fabric_gateway.Samples.Made.{call-Makes, log-Makes, iso_timestamp-Makes}
use fabric_gateway.Samples.Basic.Examples.{
  example_submit, example_submit_async, example_submit_private_data, example_submit_private_data2,
  require_successful, query_state,
}

-- The calls of a submission that waits for its commit, and of one followed by a query.
abbrev pub submission : List String
submission = endorse_method ∷ submit_method ∷ commit_status_method ∷ []

abbrev pub submission_and_query : List String
submission_and_query = submission ++ evaluate_method ∷ []

module _ (pb : Protos) (node : Platform) (setting : Setting) (g : GatewayImpl) where
  submit-Makes :
      (c : ContractImpl) (name : String) (options : Option ProposalOptions)
      → Makes method_calls submission (call (submit pb node g.client c name options))
  submit-Makes c name options = call-Makes submission (submit-calls pb node g.client c name options)

  pub submitted-Makes :
      (c : ContractImpl) (name : String) (args : List Value)
      → Makes method_calls submission (call (submit_transaction pb node g.client c name args))
  unfolding submit_transaction
  submitted-Makes c name args = call-Makes submission (submit-calls pb node g.client c name _)

  evaluated-Makes :
      (c : ContractImpl) (name : String) (args : List Value)
      → Makes method_calls
          (evaluate_method ∷ [])
          (call (evaluate_transaction pb node g.client c name args))
  unfolding evaluate_transaction
  evaluated-Makes c name args =
      call-Makes (evaluate_method ∷ []) (evaluate-calls pb node g.client c name _)

  pub async-Makes :
      (c : ContractImpl) (name : String) (options : Option ProposalOptions)
      → Makes method_calls
          (endorse_method ∷ submit_method ∷ [])
          (call (submit_async pb node g.client c name options))
  async-Makes c name options =
      call-Makes (endorse_method ∷ submit_method ∷ [])
        (submit_async-Makes pb node g.client c name options)

  pub status-Makes :
      (commit : SubmittedTransaction)
      → Makes method_calls
          (commit_status_method ∷ [])
          (call (call_on commit.commit (get_status pb g.client none)))
  status-Makes commit =
      call-Makes (commit_status_method ∷ [])
        (Makes-call_on commit.commit (get_status-Makes pb node g.client none))

  pub require_successful-Makes :
      (status : Status) → Makes method_calls [] (require_successful status)
  require_successful-Makes status = elim (Bool-cases status.successful) [
    | inl e ↦ simp e (Makes-of_result (ok tt))
    | inr e ↦ simp e (Makes-of_result (err _))
  ]

  pub log_then :
      (ms : List String) (line : List String) {m : Sample (Unit {0})}
      → Makes method_calls ms m
      → Makes method_calls ms (log line >> m)
  log_then ms line k = Makes->>= [] ms (log-Makes line) λ _. k

  -- A query whose result is printed.
  query-Makes :
      (c : ContractImpl) (name : String) (args : List Value) (line : Bytes → List String)
      → Makes method_calls
          (evaluate_method ∷ [])
          (call (evaluate_transaction pb node g.client c name args) >>= λ result. log (line result))
  query-Makes c name args line =
      Makes->>= (evaluate_method ∷ []) [] (evaluated-Makes c name args)
        λ result. log-Makes (line result)

  pub example_submit-Makes :
      Makes method_calls submission_and_query (example_submit pb node setting g)
  unfolding example_submit
  example_submit-Makes =
      Makes->>= [] submission_and_query (iso_timestamp-Makes node setting) λ timestamp.
        log_then submission_and_query _ (
          Makes->>= submission (evaluate_method ∷ []) (submitted-Makes _ _ _) λ result.
            log_then (evaluate_method ∷ []) _
              (log_then (evaluate_method ∷ []) _ (query-Makes _ _ _ _)))

  pub example_submit_async-Makes :
      Makes method_calls submission_and_query (example_submit_async pb node setting g)
  unfolding example_submit_async
  example_submit_async-Makes =
      let rest = commit_status_method ∷ evaluate_method ∷ [] in
      Makes->>= [] submission_and_query (iso_timestamp-Makes node setting) λ timestamp.
        log_then submission_and_query _ (
          Makes->>= (endorse_method ∷ submit_method ∷ []) rest (async-Makes _ _ _) λ commit.
            log_then rest _ (
              log_then rest _ (
                Makes->>= (commit_status_method ∷ []) (evaluate_method ∷ []) (status-Makes commit)
                  λ status.
                    Makes->>= [] (evaluate_method ∷ []) (require_successful-Makes status) λ _.
                      log_then (evaluate_method ∷ []) _
                        (log_then (evaluate_method ∷ []) _ (query-Makes _ _ _ _)))))

  pub example_submit_private_data-Makes :
      Makes method_calls submission_and_query (example_submit_private_data pb node setting g)
  unfolding example_submit_private_data
  example_submit_private_data-Makes =
      Makes->>= [] submission_and_query (iso_timestamp-Makes node setting) λ timestamp.
        log_then submission_and_query _ (
          Makes->>= submission (evaluate_method ∷ []) (submit-Makes _ _ _)
            λ result. log_then (evaluate_method ∷ []) _ (query-Makes _ _ _ _))

  pub example_submit_private_data2-Makes :
      Makes method_calls submission_and_query (example_submit_private_data2 pb node setting g)
  unfolding example_submit_private_data2
  example_submit_private_data2-Makes =
      Makes->>= [] submission_and_query (iso_timestamp-Makes node setting) λ timestamp.
        log_then submission_and_query _ (
          Makes->>= submission (evaluate_method ∷ []) (submit-Makes _ _ _)
            λ result. log_then (evaluate_method ∷ []) _ (query-Makes _ _ _ _))

  pub query_state-Makes : Makes method_calls (evaluate_method ∷ []) (query_state pb node setting g)
  query_state-Makes = log_then (evaluate_method ∷ []) _ (query-Makes _ _ _ _)

  -- A submission that is announced, and what follows it.
  pub submitted_then :
      (ms : List String) (c : ContractImpl) (name : String) (args : List Value) (line : List String)
      {m : Sample (Unit {0})}
      → Makes method_calls ms m
      → Makes method_calls
          (submission ++ ms)
          (log line >> (call (submit_transaction pb node g.client c name args) >> m))
  submitted_then ms c name args line k =
      log_then (submission ++ ms) line
        (Makes->>= submission ms (submitted-Makes c name args) λ _. k)
