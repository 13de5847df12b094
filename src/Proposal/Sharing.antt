-- ===== src/Proposal/Sharing.antt =====
-- node/src/proposal.ts: the two references of a proposal object to a signed proposal.
use fabric_gateway.Base.{◌≡◌, refl, String, Option, Bytes, arith}
use fabric_gateway.Effect.{ok, map_err}
use fabric_gateway.Effect.Keeps.{
  Keeps, Keeps->>=, Keeps-gets, Keeps-of_result, Keeps-on_history, Keeps-sign_if_unsigned,
}
use fabric_gateway.Errors.{CallOptions, History, Thrown, assert_defined}
use fabric_gateway.Platform.{Platform}
use fabric_gateway.Protos.{Protos}
use fabric_gateway.Protos.Gateway.{ProposedTransaction}
use fabric_gateway.Signing.{SigningIdentity}
use fabric_gateway.Signing.Signable.{IsSignable}
use fabric_gateway.Client.{GatewayClient}
use fabric_gateway.Client
use fabric_gateway.Transaction.{new_transaction_impl}
use fabric_gateway.Proposal.{
  ProposalImpl, IsShared, new_proposal_impl, proposal_signable, set_signature, is_signed, evaluate,
  endorse, new_evaluate_request, new_endorse_request, new_prepared_transaction, response_payload,
}

-- What a new signature keeps, evaluating and endorsing keep.
module _ (pb : Protos) (node : Platform) (client : GatewayClient) (options : Option CallOptions)
    (P : ProposalImpl → Type 0)
    (closed : (b : Bytes) (p : ProposalImpl) → P p → P (set_signature b p)) where
  evaluate-Keeps : Keeps P (evaluate pb node client options)
  unfolding evaluate
  evaluate-Keeps = Keeps->>= (Keeps-sign_if_unsigned proposal_signable closed) λ _.
      Keeps->>= (Keeps-gets (λ (s : ProposalImpl × History). s.0)) λ p.
        Keeps->>= (Keeps-on_history (Client.evaluate pb client (new_evaluate_request p) options))
          λ r. Keeps-of_result (ok (response_payload r))

  endorse-Keeps : Keeps P (endorse pb node client options)
  unfolding endorse
  endorse-Keeps = Keeps->>= (Keeps-sign_if_unsigned proposal_signable closed) λ _.
      Keeps->>= (Keeps-gets (λ (s : ProposalImpl × History). s.0)) λ p.
        Keeps->>= (Keeps-on_history (Client.endorse pb client (new_endorse_request p) options)) λ r.
          Keeps->>=
            (Keeps-of_result (
              map_err Thrown.error
                (assert_defined r.prepared_transaction "Missing transaction envelope")))
            λ envelope. Keeps-of_result (
              new_transaction_impl pb node p.signing_identity (new_prepared_transaction p envelope))

-- A proposal object is made of one, and differs from it in the signature at most.
pub record Extends (p q : ProposalImpl) : Type 0 where
  pub shared : IsShared q
  pub same_identity : q.signing_identity ≡ p.signing_identity
  pub same_channel : q.channel_name ≡ p.channel_name
  pub same_transaction :
      q.proposed_transaction.transaction_id ≡ p.proposed_transaction.transaction_id
  pub same_organizations :
      q.proposed_transaction.endorsing_organizations
      ≡ p.proposed_transaction.endorsing_organizations
  pub same_bytes : q.proposal.proposal_bytes ≡ p.proposal.proposal_bytes

set_signature-Extends :
    (p : ProposalImpl) (b : Bytes) (q : ProposalImpl) → Extends p q → Extends p (set_signature b q)
unfolding set_signature
set_signature-Extends p b q e = record {
  shared = refl;
  same_identity = e.same_identity;
  same_channel = e.same_channel;
  same_transaction = e.same_transaction;
  same_organizations = e.same_organizations;
  same_bytes = e.same_bytes;
}

Extends-self : (p : ProposalImpl) → IsShared p → Extends p p
Extends-self p h = record {
  shared = h;
  same_identity = refl;
  same_channel = refl;
  same_transaction = refl;
  same_organizations = refl;
  same_bytes = refl;
}

-- Whatever evaluating or endorsing a proposal ends with, the object's two references still are to
-- one signed proposal, and nothing but its signature has changed.
pub sending-Extends :
    (pb : Protos) (node : Platform) (client : GatewayClient) (options : Option CallOptions)
    (p : ProposalImpl) (h : History)
    → IsShared p
    → Extends p (evaluate pb node client options (p, h)).1.0
      × Extends p (endorse pb node client options (p, h)).1.0
sending-Extends pb node client options p h s = (
  (evaluate-Keeps pb node client options (Extends p) (set_signature-Extends p)).at p h
      (Extends-self p s),
  (endorse-Keeps pb node client options (Extends p) (set_signature-Extends p)).at p h
      (Extends-self p s),
)

-- The constructor makes such an object.
new_proposal_impl-IsShared :
    (identity : SigningIdentity) (channel : String) (proposed : ProposedTransaction)
    (p : ProposalImpl)
    → new_proposal_impl identity channel proposed ≡ ok p
    → IsShared p
unfolding new_proposal_impl
new_proposal_impl-IsShared identity channel proposed p e = ground arith

-- The class keeps the laws of the interface.
pub proposal_signable-IsSignable : IsSignable proposal_signable
unfolding set_signature is_signed
proposal_signable-IsSignable = record {
  signature-set_signature = λ b s. refl;
  message-set_signature = λ b s. refl;
  identity-set_signature = λ b s. refl;
  is_signed-eq-ltb = λ s. refl;
}
