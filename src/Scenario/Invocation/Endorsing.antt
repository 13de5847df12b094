-- ===== src/Scenario/Invocation/Endorsing.antt =====
-- Endorsing: a proposal signed off line, against one that asks the signer.
use fabric_gateway.Base.{
  arith, Option-cases, ◌≡◌, refl, ap, ◌∙◌, none, some, ◌∷◌, Bytes, true, false, inl, inr, ltb,
  length,
}
use fabric_gateway.Effect.{
  Result, ok, err, Result-cases, continue_with, call_on, ◌>>=◌, map_err, of_result, then_result,
}
use fabric_gateway.Errors.{Thrown, Event, History, Method, assert_defined}
use fabric_gateway.Platform.{Platform}
use fabric_gateway.Protos.{Protos}
use fabric_gateway.Protos.Peer.{Envelope}
use fabric_gateway.Protos.Gateway.{EndorseRequest, EndorseResponse, PreparedTransaction}
use fabric_gateway.Signing.{SigningIdentity, Signer, hash}
use fabric_gateway.Signing.Signable.{
  get_digest, sign_if_unsigned-ok, sign_if_unsigned-err, sign_if_unsigned-signed,
}
use fabric_gateway.Client.{GatewayClient}
use fabric_gateway.Client
use fabric_gateway.Proposal.{ProposalImpl, proposal_signable, set_signature, is_signed}
use fabric_gateway.Proposal
use fabric_gateway.Transaction.{
  TransactionImpl, transaction_signable, new_transaction_impl, new_submitted_transaction,
}
use fabric_gateway.Transaction
use fabric_gateway.Scenario.Invocation.{sign_offline}
use fabric_gateway.Scenario.Invocation.Offline.{with_signer, NeverEmpty, under, rebuilt}
use fabric_gateway.Scenario.Invocation.Alike.{
  Like, like_ok, like_err, Like-offline, transaction_under,
}

-- The gateway endorses with unsigned envelopes.
abbrev pub UnsignedEnvelopes : Protos → GatewayClient → Type 0
UnsignedEnvelopes pb client =
    (request : EndorseRequest) (h : History) (response : EndorseResponse) (envelope : Envelope)
    → (Client.endorse pb client request none h).0 ≡ ok response
    → response.prepared_transaction ≡ some envelope
    → ltb 0 (length envelope.signature) ≡ false

module _ (pb : Protos) (node : Platform) (client : GatewayClient) (s : Signer)
    (g : SigningIdentity) where
  -- A transaction that the constructor made, unsigned, and the same one with the signer.
  pub record Transactions (t t' : TransactionImpl) : Type 0 where
    pub same : t' ≡ transaction_under s t
    pub identity : t.signing_identity ≡ g
    pub prepared : PreparedTransaction
    pub made : new_transaction_impl pb node g prepared ≡ ok t
    pub unsigned : Transaction.is_signed t ≡ false

  new_transaction_impl-ok :
      (prepared : PreparedTransaction) (envelope : Envelope) (t : TransactionImpl)
      → prepared.envelope ≡ some envelope
      → new_transaction_impl pb node g prepared ≡ ok t
      → (new_transaction_impl pb node (with_signer s g) prepared ≡ ok (transaction_under s t))
        × (t.signing_identity ≡ g)
        × (t.envelope ≡ envelope)
  unfolding new_transaction_impl assert_defined
  new_transaction_impl-ok prepared envelope t e r = ground arith

  new_transaction_impl-err :
      (prepared : PreparedTransaction) (x : Thrown)
      → new_transaction_impl pb node g prepared ≡ err x
      → new_transaction_impl pb node (with_signer s g) prepared ≡ err x
  unfolding new_transaction_impl assert_defined
  new_transaction_impl-err prepared x r = ground arith

  new_transaction_impl-Like :
      (prepared : PreparedTransaction) (envelope : Envelope) (h : History)
      → prepared.envelope ≡ some envelope
      → ltb 0 (length envelope.signature) ≡ false
      → Like Transactions
          (new_transaction_impl pb node g prepared, h)
          (new_transaction_impl pb node (with_signer s g) prepared, h)
  unfolding Transaction.is_signed
  new_transaction_impl-Like prepared envelope h e unsigned =
      elim (Result-cases (new_transaction_impl pb node g prepared)) [
        | inl (t, r) ↦
            let (r', own, same) = new_transaction_impl-ok prepared envelope t e r in
            rw r (
              rw r' (
                like_ok t (transaction_under s t) h (record {
                  same = refl;
                  identity = own;
                  prepared = prepared;
                  made = r;
                  unsigned = ap (λ (v : Envelope). ltb 0 (length v.signature)) same ∙ unsigned;
                })))
        | inr (x, r) ↦ rw r (rw (new_transaction_impl-err prepared x r) (like_err x h))
      ]

  abbrev endorsed : ProposalImpl → EndorseResponse → Result Thrown TransactionImpl
  endorsed p response =
      then_result
        (map_err Thrown.error
          (assert_defined response.prepared_transaction "Missing transaction envelope"))
        (λ envelope.
          new_transaction_impl pb node p.signing_identity
            (Proposal.new_prepared_transaction p envelope))

  endorsed-Like :
      (p : ProposalImpl) (response : EndorseResponse) (h : History)
      → p.signing_identity ≡ g
      → ((envelope : Envelope)
          → response.prepared_transaction ≡ some envelope
          → ltb 0 (length envelope.signature) ≡ false)
      → Like Transactions (endorsed p response, h) (endorsed (under s p) response, h)
  unfolding assert_defined Proposal.new_prepared_transaction
  endorsed-Like p response h own unsigned = elim (Option-cases response.prepared_transaction) [
    | inl e ↦ rw e (like_err _ h)
    | inr (envelope, e) ↦
        rw e (rw own (new_transaction_impl-Like _ envelope h refl (unsigned envelope e)))
  ]

  -- What endorsing a signed proposal does once the gateway has answered.
  abbrev answered :
      ProposalImpl
      → Result Thrown EndorseResponse × History
      → Result Thrown TransactionImpl × History
  answered p (ok response, h) = (endorsed p response, h)
  answered p (err x, h) = (err x, h)

  answered-Like :
      (p : ProposalImpl) (r : Result Thrown EndorseResponse × History)
      → p.signing_identity ≡ g
      → ((response : EndorseResponse) (envelope : Envelope)
          → r.0 ≡ ok response
          → response.prepared_transaction ≡ some envelope
          → ltb 0 (length envelope.signature) ≡ false)
      → Like Transactions (answered p r) (answered (under s p) r)
  answered-Like p (ok response, h) own unsigned =
      endorsed-Like p response h own (λ envelope. unsigned response envelope refl)
  answered-Like p (err x, h) own unsigned = like_err x h

  abbrev endorse_body : ProposalImpl → EndorseResponse → Method ProposalImpl TransactionImpl
  endorse_body p response = do
    envelope ← of_result (
        map_err Thrown.error
          (assert_defined response.prepared_transaction "Missing transaction envelope"))
    of_result (
        new_transaction_impl pb node p.signing_identity
          (Proposal.new_prepared_transaction p envelope))

  body-answered :
      (p : ProposalImpl) (r : Result Thrown EndorseResponse × History)
      → call_on p (λ _. continue_with (endorse_body p) (r.0, (p, r.1))) r.1 ≡ answered p r
  unfolding assert_defined
  body-answered p (ok response, h) = elim (Option-cases response.prepared_transaction) [
    | inl e ↦ rw e
    | inr (v, e) ↦ rw e
  ]
  body-answered p (err x, h) = refl

  -- Endorsing a proposal that is signed already.
  endorse_signed :
      (p : ProposalImpl) (h : History)
      → is_signed p ≡ true
      → call_on p (Proposal.endorse pb node client none) h
        ≡ answered p (Client.endorse pb client (Proposal.new_endorse_request p) none h)
  unfolding Proposal.endorse
  endorse_signed p h signed =
      rw (sign_if_unsigned-signed proposal_signable p h signed)
        (body-answered p (Client.endorse pb client (Proposal.new_endorse_request p) none h))

  -- Endorsing an unsigned proposal whose signer answers.
  endorse_signing :
      (p : ProposalImpl) (h : History) (b : Bytes)
      → is_signed p ≡ false
      → s h (get_digest proposal_signable p) ≡ ok b
      → let h' : History = Event.sign (get_digest proposal_signable p) ∷ h in
        call_on (under s p) (Proposal.endorse pb node client none) h
        ≡ answered
            (under s (set_signature b p))
            (Client.endorse pb client (Proposal.new_endorse_request (set_signature b p)) none h')
  unfolding Proposal.endorse Proposal.new_endorse_request set_signature is_signed get_digest hash
  endorse_signing p h b unsigned e =
      rw (sign_if_unsigned-ok proposal_signable (under s p) h b unsigned e) (
        body-answered (under s (set_signature b p)) (
          Client.endorse pb client (Proposal.new_endorse_request (set_signature b p)) none
            (Event.sign (get_digest proposal_signable p) ∷ h)))

  endorse_rejected :
      (p : ProposalImpl) (h : History) (x : Thrown)
      → is_signed p ≡ false
      → s h (get_digest proposal_signable p) ≡ err x
      → call_on (under s p) (Proposal.endorse pb node client none) h
        ≡ (err x, Event.sign (get_digest proposal_signable p) ∷ h)
  unfolding Proposal.endorse is_signed get_digest hash
  endorse_rejected p h x unsigned e =
      rw (sign_if_unsigned-err proposal_signable (under s p) h x unsigned e)

  module _ (never_empty : NeverEmpty s) (unsigned_envelopes : UnsignedEnvelopes pb client) where
    pub endorse-Like :
        (get_bytes : ProposalImpl → Bytes)
        (new_instance : Bytes → Bytes → Result Thrown ProposalImpl) (p : ProposalImpl) (h : History)
        → is_signed p ≡ false
        → p.signing_identity ≡ g
        → ((b : Bytes) → new_instance (get_bytes p) b ≡ ok (set_signature b p))
        → Like Transactions
            (continue_with
              (λ t. call_on t (Proposal.endorse pb node client none))
              (sign_offline proposal_signable get_bytes new_instance (some s) p h))
            (call_on (under s p) (Proposal.endorse pb node client none) h)
    unfolding set_signature is_signed
    endorse-Like get_bytes new_instance p h unsigned own rebuilt =
        Like-offline s proposal_signable get_bytes new_instance
          (Proposal.endorse pb node client none) p h
          (call_on (under s p) (Proposal.endorse pb node client none) h) rebuilt
          (λ b e. rw (endorse_signed (set_signature b p) _ (never_empty h _ b e)) (
            rw (endorse_signing p h b unsigned e) (
              answered-Like (set_signature b p) _ own
                (λ response envelope. unsigned_envelopes _ _ response envelope))))
          (λ x e. endorse_rejected p h x unsigned e)
