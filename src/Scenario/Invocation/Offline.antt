-- ===== src/Scenario/Invocation/Offline.antt =====
-- An invocation with an off-line signer, against a contract whose gateway has that signer.
use fabric_gateway.Base.{
  ◌≡◌, refl, sym, String, none, some, ◌∷◌, Bytes, true, false, inl, inr, ltb, length,
}
use fabric_gateway.Effect.{Result, ok, err, Result-cases, continue_with, call_on, pure}
use fabric_gateway.Errors.{Thrown, Event, History}
use fabric_gateway.Platform.{Platform}
use fabric_gateway.Protos.{Protos, RoundTrips}
use fabric_gateway.Signing.{SigningIdentity, Signer, get_creator, hash}
use fabric_gateway.Signing.Signable.{
  get_digest, sign_if_unsigned-ok, sign_if_unsigned-err, sign_if_unsigned-signed,
}
use fabric_gateway.Client.{GatewayClient}
use fabric_gateway.Client
use fabric_gateway.ProposalBuilder.{ProposalOptions, ProposalBuilder}
use fabric_gateway.ProposalBuilder as Builder
use fabric_gateway.TransactionContext.{new_transaction_context, context_of, nonce_length}
use fabric_gateway.Proposal.{
  ProposalImpl, proposal_signable, new_proposal_impl, set_signature, is_signed,
  new_evaluate_request,
}
use fabric_gateway.Proposal
use fabric_gateway.Contract.{ContractImpl, new_proposal, no_options, get_qualified_transaction_name}
use fabric_gateway.Contract
use fabric_gateway.Contract.Proposing.{builder_options}
use fabric_gateway.Gateway.{new_signed_proposal}
use fabric_gateway.Gateway.Offline.{new_signed_proposal-build}
use fabric_gateway.Errors.{assert_defined}
use fabric_gateway.Scenario.Invocation.{TransactionInvocation, evaluate, sign_offline}

-- The same identity, with another signer.
abbrev pub with_signer : Signer → SigningIdentity → SigningIdentity
with_signer s identity = record identity { signer = s }

abbrev pub contract_with : Signer → ContractImpl → ContractImpl
contract_with s c = record c { signing_identity = with_signer s c.signing_identity }

-- No answer of the signer is empty.
abbrev pub NeverEmpty : Signer → Type 0
NeverEmpty s = (h : History) (d b : Bytes) → s h d ≡ ok b → ltb 0 (length b) ≡ true

module _ (pb : Protos) (node : Platform) where
  -- The builder of a proposal, and the proposal, that a contract makes.
  abbrev pub builder_of : ContractImpl → String → ProposalOptions → History → ProposalBuilder
  builder_of c name options h = record {
    options = builder_options c name (some options);
    transaction_context = context_of c.signing_identity (node.random_bytes h nonce_length);
  }

  abbrev pub drawn : History → History
  drawn h = Event.random_bytes nonce_length ∷ h

  abbrev pub proposal_of : ContractImpl → String → ProposalOptions → History → ProposalImpl
  proposal_of c name options h = record {
    signing_identity = c.signing_identity;
    channel_name = c.channel_name;
    proposed_transaction =
        Builder.new_proposed_transaction pb (builder_of c name options h) (node.date_now (drawn h));
    proposal =
        Builder.new_signed_proposal pb (builder_of c name options h) (node.date_now (drawn h));
  }

  pub new_proposal-proposal_of :
      (c : ContractImpl) (name : String) (options : ProposalOptions) (h : History)
      → new_proposal pb node c name (some options) h
        ≡ (ok (proposal_of c name options h), Event.now ∷ drawn h)
  unfolding new_proposal Builder.new_proposal_builder new_transaction_context Builder.build
      new_proposal_impl assert_defined Builder.new_proposed_transaction
  new_proposal-proposal_of c name options h = refl

  -- The signer of its contract makes no difference to a proposal's messages.
  pub proposal_of-contract_with :
      (s : Signer) (c : ContractImpl) (name : String) (options : ProposalOptions) (h : History)
      → proposal_of (contract_with s c) name options h ≡ record (proposal_of c name options h) {
        signing_identity = with_signer s c.signing_identity;
      }
  unfolding Builder.new_proposed_transaction Builder.new_signed_proposal Builder.new_proposal
      Builder.new_header Builder.new_channel_header Builder.new_chaincode_header_extension
      Builder.new_chaincode_proposal_payload Builder.new_chaincode_invocation_spec
      Builder.new_chaincode_spec Builder.new_chaincode_id Builder.new_chaincode_input
      Builder.get_args_as_bytes Builder.get_transient_data context_of get_creator hash
      get_qualified_transaction_name
  proposal_of-contract_with s c name options h = refl

-- A call that leaves its object alone answers the same whatever the object.
pub same_answer :
    {T A B : Type 0} (t t' : T) (f : A → B) (r : Result Thrown A × History)
    → call_on t (λ _. continue_with (λ a. pure (f a)) (r.0, (t, r.1))) r.1
      ≡ call_on t' (λ _. continue_with (λ a. pure (f a)) (r.0, (t', r.1))) r.1
same_answer t t' f (ok a, h) = refl
same_answer t t' f (err e, h) = refl

-- The same proposal, with another signer.
abbrev pub under : Signer → ProposalImpl → ProposalImpl
under s p = record p { signing_identity = with_signer s p.signing_identity }

module _ (pb : Protos) (node : Platform) (client : GatewayClient) (s : Signer) (p : ProposalImpl)
    (h : History) (unsigned : is_signed p ≡ false) where
  -- Evaluating the signed proposal is evaluating an unsigned one, once the signer has answered.
  evaluate-set_signature :
      (b : Bytes)
      → s h (get_digest proposal_signable p) ≡ ok b
      → ltb 0 (length b) ≡ true
      → call_on
          (set_signature b p)
          (Proposal.evaluate pb node client none)
          (Event.sign (get_digest proposal_signable p) ∷ h)
        ≡ call_on (under s p) (Proposal.evaluate pb node client none) h
  unfolding Proposal.evaluate new_evaluate_request set_signature is_signed get_digest hash
  evaluate-set_signature b e nonempty =
      rw
        (sign_if_unsigned-signed proposal_signable (set_signature b p)
          (Event.sign (get_digest proposal_signable p) ∷ h) nonempty)
        (rw (sign_if_unsigned-ok proposal_signable (under s p) h b unsigned e) (
          same_answer (set_signature b p) (set_signature b (under s p)) Proposal.response_payload (
            Client.evaluate pb client (new_evaluate_request (set_signature b p)) none
              (Event.sign (get_digest proposal_signable p) ∷ h))))

  evaluate-rejected :
      (x : Thrown)
      → s h (get_digest proposal_signable p) ≡ err x
      → call_on (under s p) (Proposal.evaluate pb node client none) h
        ≡ (err x, Event.sign (get_digest proposal_signable p) ∷ h)
  unfolding Proposal.evaluate is_signed get_digest hash
  evaluate-rejected x e = rw (sign_if_unsigned-err proposal_signable (under s p) h x unsigned e)

module _ (pb : Protos) (laws : RoundTrips pb) (node : Platform) (client : GatewayClient)
    (i : TransactionInvocation) (h : History) (s : Signer) where
  abbrev pub made : ProposalImpl
  made = proposal_of pb node i.contract i.name i.options h

  -- The proposal that is rebuilt from the bytes of the one that the contract made.
  pub rebuilt :
      (b : Bytes)
      → i.gateway ≡ i.contract.signing_identity
      → new_signed_proposal pb i.gateway (Proposal.get_bytes pb made) b ≡ ok (set_signature b made)
  unfolding Builder.build new_proposal_impl assert_defined Builder.new_proposed_transaction
  rebuilt b same = rw same (
      new_signed_proposal-build pb laws node (builder_of pb node i.contract i.name i.options h)
        (drawn pb node h) made b refl)

  -- With an off-line signer that answers no empty signature, a gateway of the contract's identity, and
  -- messages that are read back as they were serialised, evaluating has the result and makes the
  -- calls that it has and makes where that signer is the gateway's.
  pub evaluate-offline :
      i.offline_signer ≡ some s
      → i.gateway ≡ i.contract.signing_identity
      → NeverEmpty s
      → evaluate pb node client i h
        ≡ Contract.evaluate pb node client (contract_with s i.contract) i.name (some i.options) h
  unfolding evaluate Contract.evaluate sign_offline is_signed Builder.new_signed_proposal
      get_qualified_transaction_name context_of Builder.new_proposed_transaction
      Builder.get_args_as_bytes Builder.get_transient_data
  evaluate-offline signer same never_empty =
      let h' : History = Event.now ∷ drawn pb node h in
      rw (new_proposal-proposal_of pb node i.contract i.name i.options h) (
        rw (new_proposal-proposal_of pb node (contract_with s i.contract) i.name i.options h) (
          simp signer (elim (Result-cases (s h' (get_digest proposal_signable made))) [
            | inl (b, e) ↦
                rw (e, rebuilt b same)
                  (evaluate-set_signature pb node client s made h' refl b e (never_empty h' _ b e))
            | inr (x, e) ↦ rw e (sym (evaluate-rejected pb node client s made h' refl x e))
          ])))
