-- ===== src/Scenario/Invocation/Submitting.antt =====
-- Submitting and asking for the status: objects signed off line, against those that ask the signer.
use fabric_gateway.Base.{◌≡◌, refl, ap, sym, ◌∙◌, none, some, ◌∷◌, Bytes, true, false, ltb, length}
use fabric_gateway.Effect.{Result, ok, err, continue_with, call_on, pure, map_err}
use fabric_gateway.Errors.{Thrown, Event, History}
use fabric_gateway.Platform.{Platform}
use fabric_gateway.Protos.{Protos, RoundTrips}
use fabric_gateway.Protos.Gateway.{SubmitResponse}
use fabric_gateway.Signing.{SigningIdentity, Signer, hash, get_creator}
use fabric_gateway.Signing.Signable.{
  get_digest, sign_if_unsigned-ok, sign_if_unsigned-err, sign_if_unsigned-signed,
}
use fabric_gateway.Client.{GatewayClient}
use fabric_gateway.Client
use fabric_gateway.Transaction.{
  TransactionImpl, transaction_signable, new_transaction_impl, new_submitted_transaction,
}
use fabric_gateway.Transaction
use fabric_gateway.Commit.{
  CommitImpl, commit_signable, SubmittedTransaction, get_status, get_result,
}
use fabric_gateway.Commit
use fabric_gateway.Status.{Status}
use fabric_gateway.Gateway.Offline.{new_signed_transaction-get_bytes, new_signed_commit-get_bytes}
use fabric_gateway.Gateway.{new_signed_transaction, new_signed_commit}
use fabric_gateway.Scenario.Invocation.{sign_offline}
use fabric_gateway.Scenario.Invocation.Offline.{NeverEmpty, same_answer}
use fabric_gateway.Scenario.Invocation.Alike.{
  Like, like_ok, like_err, Like-refl, Like-offline, transaction_under, commit_under,
}
use fabric_gateway.Scenario.Invocation.Endorsing.{Transactions}

module _ (pb : Protos) (node : Platform) (client : GatewayClient) (s : Signer)
    (g : SigningIdentity) where
  -- A submitted transaction, and the same one with the signer.
  pub record Submissions (u u' : SubmittedTransaction) : Type 0 where
    pub same_commit : u'.commit ≡ commit_under s u.commit
    pub same_result : u'.result ≡ u.result
    pub transaction : TransactionImpl
    pub of_transaction : u.commit ≡ (new_submitted_transaction pb transaction).commit
    pub own : transaction.signing_identity ≡ g

  -- What submitting a signed transaction does once the gateway has answered.
  abbrev submitted :
      TransactionImpl
      → Result Thrown SubmitResponse × History
      → Result Thrown SubmittedTransaction × History
  submitted t (ok response, h) = (ok (new_submitted_transaction pb t), h)
  submitted t (err x, h) = (err x, h)

  submitted-Like :
      (t : TransactionImpl) (r : Result Thrown SubmitResponse × History)
      → t.signing_identity ≡ g
      → Like Submissions (submitted t r) (submitted (transaction_under s t) r)
  unfolding new_submitted_transaction Transaction.new_signed_commit_status_request
      Transaction.new_commit_status_request Transaction.get_transaction_id Transaction.get_result
      get_creator
  submitted-Like t (ok response, h) own = like_ok _ _ h (record {
    same_commit = refl;
    same_result = refl;
    transaction = t;
    of_transaction = refl;
    own = own;
  })
  submitted-Like t (err x, h) own = like_err x h

  body-submitted :
      (t : TransactionImpl) (r : Result Thrown SubmitResponse × History)
      → call_on t
          (λ _. continue_with (λ _. pure (new_submitted_transaction pb t)) (r.0, (t, r.1)))
          r.1
        ≡ submitted t r
  body-submitted t (ok response, h) = refl
  body-submitted t (err x, h) = refl

  submit_signed :
      (t : TransactionImpl) (h : History)
      → Transaction.is_signed t ≡ true
      → call_on t (Transaction.submit pb client none) h
        ≡ submitted t (Client.submit pb client (Transaction.new_submit_request t) none h)
  unfolding Transaction.submit
  submit_signed t h signed =
      rw (sign_if_unsigned-signed transaction_signable t h signed)
        (body-submitted t (Client.submit pb client (Transaction.new_submit_request t) none h))

  submit_signing :
      (t : TransactionImpl) (h : History) (b : Bytes)
      → Transaction.is_signed t ≡ false
      → s h (get_digest transaction_signable t) ≡ ok b
      → let h' : History = Event.sign (get_digest transaction_signable t) ∷ h in
        call_on (transaction_under s t) (Transaction.submit pb client none) h
        ≡ submitted (transaction_under s (Transaction.set_signature b t)) (
            Client.submit pb client
              (Transaction.new_submit_request (Transaction.set_signature b t))
              none
              h')
  unfolding Transaction.submit Transaction.new_submit_request Transaction.set_signature
      Transaction.is_signed get_digest hash Transaction.get_transaction_id
  submit_signing t h b unsigned e =
      rw (sign_if_unsigned-ok transaction_signable (transaction_under s t) h b unsigned e) (
        body-submitted (transaction_under s (Transaction.set_signature b t)) (
          Client.submit pb client (Transaction.new_submit_request (Transaction.set_signature b t))
            none (Event.sign (get_digest transaction_signable t) ∷ h)))

  submit_rejected :
      (t : TransactionImpl) (h : History) (x : Thrown)
      → Transaction.is_signed t ≡ false
      → s h (get_digest transaction_signable t) ≡ err x
      → call_on (transaction_under s t) (Transaction.submit pb client none) h
        ≡ (err x, Event.sign (get_digest transaction_signable t) ∷ h)
  unfolding Transaction.submit Transaction.is_signed get_digest hash
  submit_rejected t h x unsigned e =
      rw (sign_if_unsigned-err transaction_signable (transaction_under s t) h x unsigned e)

  pub submit-Like :
      (laws : RoundTrips pb) (never_empty : NeverEmpty s) (t t' : TransactionImpl) (h : History)
      → Transactions pb node client s g t t'
      → Like Submissions
          (continue_with
            (λ u. call_on u (Transaction.submit pb client none))
            (sign_offline transaction_signable
              (Transaction.get_bytes pb)
              (new_signed_transaction pb node g)
              (some s)
              t
              h))
          (call_on t' (Transaction.submit pb client none) h)
  unfolding Transaction.is_signed Transaction.set_signature
  submit-Like laws never_empty t t' h like = rw like.same (
      Like-offline s transaction_signable (Transaction.get_bytes pb)
        (new_signed_transaction pb node g) (Transaction.submit pb client none) t h
        (call_on (transaction_under s t) (Transaction.submit pb client none) h)
        (λ b. new_signed_transaction-get_bytes pb laws node g like.prepared t b like.made)
        (λ b e. rw (submit_signed (Transaction.set_signature b t) _ (never_empty h _ b e)) (
          rw (submit_signing t h b like.unsigned e)
            (submitted-Like (Transaction.set_signature b t) _ like.identity)))
        (λ x e. submit_rejected t h x like.unsigned e))

  -- Asking for the status of a signed commit, and of an unsigned one whose signer answers.
  get_status-set_signature :
      (c : CommitImpl) (h : History) (b : Bytes)
      → Commit.is_signed c ≡ false
      → s h (get_digest commit_signable c) ≡ ok b
      → ltb 0 (length b) ≡ true
      → call_on
          (Commit.set_signature b c)
          (get_status pb client none)
          (Event.sign (get_digest commit_signable c) ∷ h)
        ≡ call_on (commit_under s c) (get_status pb client none) h
  unfolding get_status Commit.new_status Commit.set_signature Commit.is_signed get_digest hash
  get_status-set_signature c h b unsigned e nonempty =
      rw
        (sign_if_unsigned-signed commit_signable (Commit.set_signature b c)
          (Event.sign (get_digest commit_signable c) ∷ h) nonempty)
        (rw (sign_if_unsigned-ok commit_signable (commit_under s c) h b unsigned e) (
          same_answer (Commit.set_signature b c) (Commit.set_signature b (commit_under s c))
            (Commit.new_status pb (Commit.set_signature b c))
            (Client.commit_status pb client (Commit.set_signature b c).signed_request none
              (Event.sign (get_digest commit_signable c) ∷ h))))

  get_status-rejected :
      (c : CommitImpl) (h : History) (x : Thrown)
      → Commit.is_signed c ≡ false
      → s h (get_digest commit_signable c) ≡ err x
      → call_on (commit_under s c) (get_status pb client none) h
        ≡ (err x, Event.sign (get_digest commit_signable c) ∷ h)
  unfolding get_status Commit.is_signed get_digest hash
  get_status-rejected c h x unsigned e =
      rw (sign_if_unsigned-err commit_signable (commit_under s c) h x unsigned e)

  new_commit-unsigned :
      (t : TransactionImpl) → Commit.is_signed (new_submitted_transaction pb t).commit ≡ false
  unfolding Commit.is_signed new_submitted_transaction Transaction.new_signed_commit_status_request
  new_commit-unsigned t = refl

  -- The commit of a transaction whose identity is that of the gateway.
  pub status_of-Like :
      (laws : RoundTrips pb) (never_empty : NeverEmpty s) (t : TransactionImpl) (h : History)
      → t.signing_identity ≡ g
      → let c = (new_submitted_transaction pb t).commit in
        Like
          (λ (a b : Status). a ≡ b)
          (continue_with
            (λ d. call_on d (get_status pb client none))
            (sign_offline commit_signable
              (Commit.get_bytes pb)
              (λ b z. map_err Thrown.error (new_signed_commit pb g b z))
              (some s)
              c
              h))
          (call_on (commit_under s c) (get_status pb client none) h)
  status_of-Like laws never_empty t h own =
      let c = (new_submitted_transaction pb t).commit in
      Like-offline s commit_signable (Commit.get_bytes pb)
        (λ b z. map_err Thrown.error (new_signed_commit pb g b z)) (get_status pb client none) c h
        (call_on (commit_under s c) (get_status pb client none) h)
        (λ b. ap (map_err Thrown.error) (
          ap (λ i. new_signed_commit pb i (Commit.get_bytes pb c) b) (sym own)
          ∙ new_signed_commit-get_bytes pb laws t b))
        (λ b e.
          rw (get_status-set_signature c h b (new_commit-unsigned t) e (never_empty h _ b e))
            (Like-refl (call_on (commit_under s c) (get_status pb client none) h)))
        (λ x e. get_status-rejected c h x (new_commit-unsigned t) e)
