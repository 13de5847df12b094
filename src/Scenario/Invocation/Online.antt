-- ===== src/Scenario/Invocation/Online.antt =====
-- An invocation without an off-line signer, against the contract's own methods.
use fabric_gateway.Base.{◌≡◌, refl, none, some, Bytes, inl, inr, Bool-cases, ◌==◌, arith, ◌∙◌}
use fabric_gateway.Effect.{
  Result, ok, err, continue_with, call_on, ◌>>=◌, ◌>>◌, pure, modify, of_result,
  continue_with_assoc,
}
use fabric_gateway.Errors.{Thrown, History, M}
use fabric_gateway.Platform.{Platform}
use fabric_gateway.Protos.{Protos}
use fabric_gateway.Client.{GatewayClient}
use fabric_gateway.Commit.{CommitImpl, SubmittedTransaction, get_status, get_result, new_status}
use fabric_gateway.Status.{Status, new_commit_error}
use fabric_gateway.Contract.{ContractImpl, new_proposal, submit_async, result_if_successful}
use fabric_gateway.Contract
use fabric_gateway.ProposalBuilder as Builder
use fabric_gateway.TransactionContext.{new_transaction_context}
use fabric_gateway.Scenario.Invocation.{
  TransactionInvocation, evaluate, submit, submit_for_status, sign_offline, commit_failed,
  valid_result,
}

-- The rest of `submit`, once the transaction is at the orderer.
abbrev pub await_commit : Protos → GatewayClient → SubmittedTransaction → M (Bytes × Status)
await_commit pb client s = do
  status ← call_on s.commit (get_status pb client none)
  pure (get_result s, status)

module _ (pb : Protos) (node : Platform) (client : GatewayClient) (i : TransactionInvocation)
    (online : i.offline_signer ≡ none) (h : History) where
  -- Without an off-line signer, evaluating is the contract's `evaluate`.
  evaluate-Contract :
      evaluate pb node client i h
      ≡ Contract.evaluate pb node client i.contract i.name (some i.options) h
  unfolding evaluate Contract.evaluate sign_offline
  evaluate-Contract = simp online

  submit_for_status-await :
      submit_for_status pb node client i h
      ≡ continue_with
          (await_commit pb client)
          (submit_async pb node client i.contract i.name (some i.options) h)
  unfolding submit_for_status submit_async sign_offline new_proposal Builder.new_proposal_builder
      new_transaction_context Builder.build
  submit_for_status-await = simp (online, continue_with_assoc)

-- A status that the gateway reports is successful if its code is `VALID`.
get_status-successful :
    (pb : Protos) (client : GatewayClient) (c : CommitImpl) (h : History) (status : Status)
    → (get_status pb client none (c, h)).0 ≡ ok status
    → status.successful ≡ (status.code == pb.valid)
unfolding get_status new_status
get_status-successful pb client c h status e = ground arith

-- The same result, but for the class and the message of a commit error.
pub data SameOutcome (pb : Protos) : Result Thrown Bytes → Result Thrown Bytes → Type 0 where
  same : {r : Result Thrown Bytes} → SameOutcome pb r r
  commit_error :
      (status : Status)
      → SameOutcome pb
          (err (commit_failed status.code))
          (err (Thrown.commit_error (new_commit_error pb status)))

module _ (pb : Protos) (node : Platform) (client : GatewayClient) where
  abbrev pub Invoked : Type 0
  Invoked = Result Thrown Bytes × (TransactionInvocation × History)

  abbrev Agree : Invoked → Result Thrown Bytes × History → Type 0
  Agree a b = SameOutcome pb a.0 b.0 × (a.1.1 ≡ b.1)

  -- What the invocation's `submit` makes of the status of its commit.
  abbrev pub settle : TransactionInvocation → Result Thrown (Bytes × Status) × History → Invoked
  settle i (ok (bytes, status), h) =
      (valid_result pb (bytes, status), (record i { block_number = status.block_number }, h))
  settle i (err x, h) = (err x, (i, h))

  pub settle-continue_with :
      (i : TransactionInvocation) (r : Result Thrown (Bytes × Status) × History)
      → continue_with
          (λ done.
            modify (λ (s : TransactionInvocation × History).
              (record (s.0) { block_number = done.1.block_number }, s.1))
            >> of_result (valid_result pb done))
          (r.0, (i, r.1))
        ≡ settle i r
  settle-continue_with i (ok (b, s), h) = refl
  settle-continue_with i (err x, h) = refl

  -- Both make the same of the commit's status.
  Agree-status :
      (i : TransactionInvocation) (s : SubmittedTransaction) (r : Result Thrown Status × History)
      → ((status : Status) → r.0 ≡ ok status → status.successful ≡ (status.code == pb.valid))
      → Agree
          (settle i (continue_with (λ status. pure (get_result s, status)) r))
          (continue_with (result_if_successful pb node client s) r)
  Agree-status i s (err x, h) successful = (same, refl)
  Agree-status i s (ok status, h) successful = elim (Bool-cases (status.code == pb.valid)) [
    | inl e ↦ simp (successful status refl ∙ e) (simp e (same, refl))
    | inr e ↦ simp (successful status refl ∙ e) (simp e (commit_error status, refl))
  ]

  Agree-submitted :
      (i : TransactionInvocation) (r : Result Thrown SubmittedTransaction × History)
      → Agree (settle i (continue_with (await_commit pb client) r)) (
          continue_with
            (λ s.
              call_on s.commit (get_status pb client none)
              >>= result_if_successful pb node client s)
            r)
  Agree-submitted i (err x, h) = (same, refl)
  Agree-submitted i (ok s, h) =
      Agree-status i s (call_on s.commit (get_status pb client none) h)
        (get_status-successful pb client s.commit h)

  -- Without an off-line signer, submitting calls the gateway, the signer and all else as the
  -- contract's `submit` does, and has the same result or throws the same; but the error of a commit
  -- that failed is a plain one, with the same code in its message.
  pub submit-Contract :
      (i : TransactionInvocation) (h : History)
      → i.offline_signer ≡ none
      → SameOutcome pb
          (submit pb node client (i, h)).0
          (Contract.submit pb node client i.contract i.name (some i.options) h).0
        × ((submit pb node client (i, h)).1.1
            ≡ (Contract.submit pb node client i.contract i.name (some i.options) h).1)
  unfolding submit Contract.submit
  submit-Contract i h online = rw (settle-continue_with i (submit_for_status pb node client i h)) (
      rw (submit_for_status-await pb node client i online h)
        (Agree-submitted i (submit_async pb node client i.contract i.name (some i.options) h)))
