-- ===== src/Scenario/Invocation/OfflineSubmit.antt =====
-- The three off-line signatures of a submission, against the signatures that the objects ask for.
use fabric_gateway.Base.{◌≡◌, refl, ap, ap₂, sym, none, some, ◌∷◌, Bytes}
use fabric_gateway.Effect.{continue_with, continue_with_assoc, call_on, pure, ◌>>=◌, map_err}
use fabric_gateway.Errors.{Thrown, Event, History, M}
use fabric_gateway.Platform.{Platform}
use fabric_gateway.Protos.{Protos, RoundTrips}
use fabric_gateway.Signing.{Signer}
use fabric_gateway.Client.{GatewayClient}
use fabric_gateway.Proposal.{ProposalImpl, proposal_signable, set_signature, is_signed}
use fabric_gateway.Proposal
use fabric_gateway.Transaction.{
  TransactionImpl, transaction_signable, new_transaction_impl, new_submitted_transaction,
}
use fabric_gateway.Transaction
use fabric_gateway.Commit.{CommitImpl, SubmittedTransaction, get_status, get_result}
use fabric_gateway.Status.{Status}
use fabric_gateway.Contract.{submit_async}
use fabric_gateway.Gateway.{new_signed_proposal}
use fabric_gateway.ProposalBuilder as Builder
use fabric_gateway.Scenario.Invocation.{
  TransactionInvocation, submit_for_status, sign_proposal, sign_transaction, sign_commit,
}
use fabric_gateway.Scenario.Invocation.Online.{await_commit}
use fabric_gateway.Scenario.Invocation.Offline.{
  NeverEmpty, under, contract_with, rebuilt, proposal_of, proposal_of-contract_with, drawn,
  new_proposal-proposal_of,
}
use fabric_gateway.Scenario.Invocation.Alike.{Like, like_ok, Like-chain, Like-≡}
use fabric_gateway.Scenario.Invocation.Endorsing.{Transactions, UnsignedEnvelopes, endorse-Like}
use fabric_gateway.Scenario.Invocation.Submitting.{Submissions, submit-Like, status_of-Like}

module _ (pb : Protos) (laws : RoundTrips pb) (node : Platform) (client : GatewayClient)
    (i : TransactionInvocation) (h : History) (s : Signer) (signer : i.offline_signer ≡ some s)
    (same : i.gateway ≡ i.contract.signing_identity) (never_empty : NeverEmpty s)
    (unsigned : UnsignedEnvelopes pb client) where
  settled-Like :
      (u u' : SubmittedTransaction) (k : History)
      → Submissions pb node client s i.gateway u u'
      → Like
          (λ (a b : Bytes × Status). a ≡ b)
          (continue_with
            (λ c. call_on c (get_status pb client none) >>= λ status. pure (get_result u, status))
            (sign_commit pb node i u.commit k))
          (await_commit pb client u' k)
  unfolding get_result
  settled-Like u u' k like =
      Like-chain {R = λ (a b : Status). a ≡ b}
        (λ (c : CommitImpl). call_on c (get_status pb client none))
        (λ status. pure (get_result u, status)) (λ status. pure (get_result u', status))
        (sign_commit pb node i u.commit k) (call_on u'.commit (get_status pb client none) k)
        (rw signer (
          rw like.same_commit (
            rw like.of_transaction (
              status_of-Like pb node client s i.gateway laws never_empty like.transaction k
                like.own))))
        (λ a b l e.
          like_ok _ _ l (ap₂ (λ (r : Bytes) (v : Status). (r, v)) (sym like.same_result) e))

  submitted_then-Like :
      (t t' : TransactionImpl) (k : History)
      → Transactions pb node client s i.gateway t t'
      → Like
          (λ (a b : Bytes × Status). a ≡ b)
          (continue_with
            (λ u. call_on u (Transaction.submit pb client none) >>= λ v. (λ (l : History).
              continue_with
                (λ c.
                  call_on c (get_status pb client none) >>= λ status. pure (get_result v, status))
                (sign_commit pb node i v.commit l)))
            (sign_transaction pb node i t k))
          (continue_with
            (await_commit pb client)
            (call_on t' (Transaction.submit pb client none) k))
  submitted_then-Like t t' k like =
      Like-chain {R = Submissions pb node client s i.gateway}
        (λ (u : TransactionImpl). call_on u (Transaction.submit pb client none))
        (λ v l.
          continue_with
            (λ c. call_on c (get_status pb client none) >>= λ status. pure (get_result v, status))
            (sign_commit pb node i v.commit l))
        (await_commit pb client) (sign_transaction pb node i t k)
        (call_on t' (Transaction.submit pb client none) k)
        (rw signer (submit-Like pb node client s i.gateway laws never_empty t t' k like))
        settled-Like

  abbrev fresh : ProposalImpl
  fresh = proposal_of pb node i.contract i.name i.options h

  abbrev proposed : History
  proposed = Event.now ∷ drawn pb node h

  abbrev endorsing : ProposalImpl → M TransactionImpl
  endorsing p = call_on p (Proposal.endorse pb node client none)

  abbrev submitting : TransactionImpl → M SubmittedTransaction
  submitting t = call_on t (Transaction.submit pb client none)

  abbrev rest : TransactionImpl → M (Bytes × Status)
  rest t = do
    u ← sign_transaction pb node i t
    v ← submitting u
    c ← sign_commit pb node i v.commit
    status ← call_on c (get_status pb client none)
    pure (get_result v, status)

  fresh-Like :
      Like
        (Transactions pb node client s i.gateway)
        (continue_with endorsing (sign_proposal pb node i fresh proposed))
        (endorsing (under s fresh) proposed)
  unfolding is_signed Builder.new_signed_proposal
  fresh-Like = rw signer (
      endorse-Like pb node client s i.gateway never_empty unsigned (Proposal.get_bytes pb)
        (λ b z. map_err Thrown.error (new_signed_proposal pb i.gateway b z)) fresh proposed refl
        (sym same) (λ b. ap (map_err Thrown.error) (rebuilt pb laws node client i h s b same)))

  endorsed_then-Like :
      Like
        (λ (a b : Bytes × Status). a ≡ b)
        (submit_for_status pb node client i h)
        (continue_with
          (await_commit pb client)
          (submit_async pb node client (contract_with s i.contract) i.name (some i.options) h))
  unfolding submit_for_status submit_async
  endorsed_then-Like = rw (new_proposal-proposal_of pb node i.contract i.name i.options h) (
      rw (new_proposal-proposal_of pb node (contract_with s i.contract) i.name i.options h) (
        rw (proposal_of-contract_with pb node s i.contract i.name i.options h) (
          rw
            (continue_with_assoc submitting (await_commit pb client)
              (endorsing (under s fresh) proposed))
            (Like-chain {R = Transactions pb node client s i.gateway} endorsing rest
              (λ t. submitting t >>= await_commit pb client)
              (sign_proposal pb node i fresh proposed) (endorsing (under s fresh) proposed)
              fresh-Like submitted_then-Like))))

  -- With an off-line signer that answers no empty signature, a gateway of the contract's identity that
  -- endorses with unsigned envelopes, and messages that are read back as they were serialised, the
  -- three signed steps of a submission have the result and make the calls that they have and make
  -- where that signer is the gateway's.
  pub submit-offline :
      submit_for_status pb node client i h
      ≡ continue_with
          (await_commit pb client)
          (submit_async pb node client (contract_with s i.contract) i.name (some i.options) h)
  submit-offline = Like-≡ _ _ endorsed_then-Like
