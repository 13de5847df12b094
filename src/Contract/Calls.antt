-- ===== src/Contract/Calls.antt =====
-- The calls of the gateway service that evaluating and submitting make, whatever the service, the
-- signer and the application's option suppliers do.
use fabric_gateway.Base.{String, Option, none, refl, [], ◌∷◌, Bool-cases, inl, inr}
use fabric_gateway.Effect.{ok, err, map_err}
use fabric_gateway.Effect.Made.{
  calls, method_calls, Made-quiet, Makes, Makes->>=, Makes-gets, Makes-of_result, Makes-on_history,
  Makes-call_on,
}
use fabric_gateway.Errors.{CallOptions, History, Thrown, assert_defined}
use fabric_gateway.Platform.{Platform}
use fabric_gateway.Protos.{Protos}
use fabric_gateway.Signing.Calls.{sign_if_unsigned-Makes}
use fabric_gateway.Client.{
  GatewayClient, evaluate_method, endorse_method, submit_method, commit_status_method,
}
use fabric_gateway.Client.Calls.{evaluate-Makes, endorse-Makes, submit-Makes, commit_status-Makes}
use fabric_gateway.Proposal.{ProposalImpl, proposal_signable, response_payload}
use fabric_gateway.Proposal
use fabric_gateway.Transaction.{
  TransactionImpl, transaction_signable, new_transaction_impl, new_submitted_transaction,
}
use fabric_gateway.Transaction
use fabric_gateway.Commit.{
  CommitImpl, SubmittedTransaction, commit_signable, get_status, new_status, get_result,
}
use fabric_gateway.Status.{Status, new_commit_error}
use fabric_gateway.ProposalBuilder.{ProposalOptions, new_proposal_builder, build}
use fabric_gateway.TransactionContext.{new_transaction_context}
use fabric_gateway.Contract.{
  ContractImpl, new_proposal, evaluate, submit_async, submit, result_if_successful,
}

module _ (pb : Protos) (node : Platform) (client : GatewayClient) where
  proposal_evaluate-Makes :
      (options : Option CallOptions)
      → Makes method_calls (evaluate_method ∷ []) (Proposal.evaluate pb node client options)
  unfolding Proposal.evaluate
  proposal_evaluate-Makes options =
      Makes->>= [] (evaluate_method ∷ []) (sign_if_unsigned-Makes proposal_signable) λ _.
        Makes->>= [] (evaluate_method ∷ []) (Makes-gets (λ (s : ProposalImpl × History). s.0)) λ p.
          Makes->>= (evaluate_method ∷ []) []
            (Makes-on_history (evaluate-Makes pb client options (Proposal.new_evaluate_request p)))
            λ r. Makes-of_result (ok (response_payload r))

  proposal_endorse-Makes :
      (options : Option CallOptions)
      → Makes method_calls (endorse_method ∷ []) (Proposal.endorse pb node client options)
  unfolding Proposal.endorse
  proposal_endorse-Makes options =
      Makes->>= [] (endorse_method ∷ []) (sign_if_unsigned-Makes proposal_signable) λ _.
        Makes->>= [] (endorse_method ∷ []) (Makes-gets (λ (s : ProposalImpl × History). s.0)) λ p.
          Makes->>= (endorse_method ∷ []) []
            (Makes-on_history (endorse-Makes pb client options (Proposal.new_endorse_request p)))
            λ r.
              Makes->>= [] []
                (Makes-of_result (
                  map_err Thrown.error
                    (assert_defined r.prepared_transaction "Missing transaction envelope")))
                λ envelope. Makes-of_result (
                  new_transaction_impl pb node p.signing_identity
                    (Proposal.new_prepared_transaction p envelope))

  transaction_submit-Makes :
      (options : Option CallOptions)
      → Makes method_calls (submit_method ∷ []) (Transaction.submit pb client options)
  unfolding Transaction.submit
  transaction_submit-Makes options =
      Makes->>= [] (submit_method ∷ []) (sign_if_unsigned-Makes transaction_signable) λ _.
        Makes->>= [] (submit_method ∷ []) (Makes-gets (λ (s : TransactionImpl × History). s.0)) λ t.
          Makes->>= (submit_method ∷ []) []
            (Makes-on_history (submit-Makes pb client options (Transaction.new_submit_request t)))
            λ r. Makes-of_result (ok (new_submitted_transaction pb t))

  pub get_status-Makes :
      (options : Option CallOptions)
      → Makes method_calls (commit_status_method ∷ []) (get_status pb client options)
  unfolding get_status
  get_status-Makes options =
      Makes->>= [] (commit_status_method ∷ []) (sign_if_unsigned-Makes commit_signable) λ _.
        Makes->>= [] (commit_status_method ∷ []) (Makes-gets (λ (s : CommitImpl × History). s.0))
          λ c.
            Makes->>= (commit_status_method ∷ []) []
              (Makes-on_history (commit_status-Makes pb client options c.signed_request))
              λ r. Makes-of_result (ok (new_status pb c r))

  new_proposal-Makes :
      (c : ContractImpl) (name : String) (options : Option ProposalOptions)
      → Makes calls [] (new_proposal pb node c name options)
  unfolding new_proposal new_proposal_builder new_transaction_context build
  new_proposal-Makes c name options = record {
    at = λ h.
        Made-quiet calls h (new_proposal pb node c name options h).1
          (new_proposal pb node c name options h).0 refl;
  }

  -- Evaluating calls `Evaluate`, once, and no other method of the service.
  pub evaluate-calls :
      (c : ContractImpl) (name : String) (options : Option ProposalOptions)
      → Makes calls (evaluate_method ∷ []) (evaluate pb node client c name options)
  unfolding evaluate
  evaluate-calls c name options =
      Makes->>= [] (evaluate_method ∷ []) (new_proposal-Makes c name options)
        λ p. Makes-call_on p (proposal_evaluate-Makes none)

  pub submit_async-Makes :
      (c : ContractImpl) (name : String) (options : Option ProposalOptions)
      → Makes calls
          (endorse_method ∷ submit_method ∷ [])
          (submit_async pb node client c name options)
  unfolding submit_async
  submit_async-Makes c name options =
      Makes->>= [] (endorse_method ∷ submit_method ∷ []) (new_proposal-Makes c name options) λ p.
        Makes->>= (endorse_method ∷ []) (submit_method ∷ [])
          (Makes-call_on p (proposal_endorse-Makes none))
          λ t. Makes-call_on t (transaction_submit-Makes none)

  result_if_successful-Makes :
      (s : SubmittedTransaction) (status : Status)
      → Makes calls [] (result_if_successful pb node client s status)
  result_if_successful-Makes s status = elim (Bool-cases status.successful) [
    | inl e ↦ simp e (Makes-of_result (ok (get_result s)))
    | inr e ↦ simp e (Makes-of_result (err (Thrown.commit_error (new_commit_error pb status))))
  ]

  -- Submitting calls `Endorse`, `Submit` and `CommitStatus`, each once and in this order. It returns
  -- only after all three; when it throws, the calls made are the first few of them.
  pub submit-calls :
      (c : ContractImpl) (name : String) (options : Option ProposalOptions)
      → Makes calls
          (endorse_method ∷ submit_method ∷ commit_status_method ∷ [])
          (submit pb node client c name options)
  unfolding submit
  submit-calls c name options =
      Makes->>= (endorse_method ∷ submit_method ∷ []) (commit_status_method ∷ [])
        (submit_async-Makes c name options)
        λ s.
          Makes->>= (commit_status_method ∷ []) [] (Makes-call_on s.commit (get_status-Makes none))
            λ status. result_if_successful-Makes s status
