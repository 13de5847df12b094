-- ===== src/Proposal/Sending.antt =====
-- What endorsing and evaluating a proposal ask of the signer and of the service.
use fabric_gateway.Base.{refl, Option, some, Bytes}
use fabric_gateway.Effect.{map_err, of_result, pure, ◌>>=◌}
use fabric_gateway.Errors.{CallOptions, Event, History, Thrown, assert_defined}
use fabric_gateway.Platform.{Platform}
use fabric_gateway.Protos.{Protos}
use fabric_gateway.Signing.{hash}
use fabric_gateway.Signing.Signable.{get_digest}
use fabric_gateway.Signing.Sent.{Sends, sign_if_unsigned-Sends, of_result-quiet}
use fabric_gateway.Client.{GatewayClient, evaluate_method, endorse_method}
use fabric_gateway.Client
use fabric_gateway.Client.Asking.{unary_call-Asks}
use fabric_gateway.Transaction.{new_transaction_impl}
use fabric_gateway.Proposal.{
  ProposalImpl, proposal_signable, evaluate, endorse, new_evaluate_request, new_endorse_request,
  new_prepared_transaction, response_payload, set_signature,
}
use fabric_gateway.Proposal.Sharing.{proposal_signable-IsSignable}

-- An `Evaluate` call with the signed proposal of `p` and this signature.
abbrev pub evaluation_of : Protos → ProposalImpl → Bytes → CallOptions → Event
evaluation_of pb p signature built =
    Event.unary_call evaluate_method
      (pb.evaluate_request.serialize_binary (record {
        transaction_id = p.proposed_transaction.transaction_id;
        channel_id = p.channel_name;
        proposed_transaction =
            some (record { proposal_bytes = p.proposal.proposal_bytes; signature = signature });
        target_organizations = p.proposed_transaction.endorsing_organizations;
      }))
      built

-- An `Endorse` call with the signed proposal of `p` and this signature.
abbrev pub endorsement_of : Protos → ProposalImpl → Bytes → CallOptions → Event
endorsement_of pb p signature built =
    Event.unary_call endorse_method
      (pb.endorse_request.serialize_binary (record {
        transaction_id = p.proposed_transaction.transaction_id;
        channel_id = p.channel_name;
        proposed_transaction =
            some (record { proposal_bytes = p.proposal.proposal_bytes; signature = signature });
        endorsing_organizations = p.proposed_transaction.endorsing_organizations;
      }))
      built

module _ (pb : Protos) (node : Platform) (client : GatewayClient) (options : Option CallOptions)
    (p : ProposalImpl) (h : History) where
  -- Whatever the signer and the service answer, evaluating and endorsing a proposal call no signer
  -- if it has a signature; else they call the signer once, with the hash of the proposal's bytes,
  -- and keep its answer as the proposal's signature. If the signer throws, so does the method, and
  -- nothing is sent. Otherwise at most one call is made, and exactly one where the method returns,
  -- with the proposal's bytes and its signature: the one from before, or the answer.
  pub sending-Sends :
      Sends
        (λ (q : ProposalImpl). q.proposal.signature)
        p.proposal.signature
        p.signing_identity.signer
        (p.signing_identity.hash p.proposal.proposal_bytes)
        (evaluation_of pb p)
        h
        (evaluate pb node client options (p, h))
      × Sends
          (λ (q : ProposalImpl). q.proposal.signature)
          p.proposal.signature
          p.signing_identity.signer
          (p.signing_identity.hash p.proposal.proposal_bytes)
          (endorsement_of pb p)
          h
          (endorse pb node client options (p, h))
  unfolding evaluate endorse Client.evaluate Client.endorse get_digest hash set_signature
      assert_defined new_evaluate_request new_endorse_request
  sending-Sends = (
    sign_if_unsigned-Sends proposal_signable proposal_signable-IsSignable
        (λ q. Client.evaluate pb client (new_evaluate_request q) options)
        (λ q response. pure (response_payload response)) (evaluation_of pb p) p h
        (λ q response s. refl) (λ l. unary_call-Asks pb client _ _ _ _ _ options _ l)
        (λ b l. unary_call-Asks pb client _ _ _ _ _ options _ l),
    sign_if_unsigned-Sends proposal_signable proposal_signable-IsSignable
        (λ q. Client.endorse pb client (new_endorse_request q) options)
        (λ q response.
          of_result (
            map_err Thrown.error
              (assert_defined response.prepared_transaction "Missing transaction envelope"))
          >>= λ envelope. of_result (
              new_transaction_impl pb node q.signing_identity
                (new_prepared_transaction q envelope)))
        (endorsement_of pb p) p h (λ q response s. of_result-quiet _ _ s (λ envelope t. refl))
        (λ l. unary_call-Asks pb client _ _ _ _ _ options _ l)
        (λ b l. unary_call-Asks pb client _ _ _ _ _ options _ l),
  )
