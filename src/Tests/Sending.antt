-- ===== src/Tests/Sending.antt =====
-- Runs of the calls against the concrete world, and the theorems about calls there.
use fabric_gateway.Base.{◌≡◌, refl, none, [], ◌∷◌, Bytes}
use fabric_gateway.Effect.{ok}
use fabric_gateway.Effect.Made.{calls, Makes}
use fabric_gateway.Client.{endorse_method, submit_method, commit_status_method}
use fabric_gateway.Proposal.{
  ProposalImpl, proposal_signable, new_evaluate_request, new_endorse_request, set_signature,
}
use fabric_gateway.Proposal
use fabric_gateway.Signing.Sent.{Sends}
use fabric_gateway.Proposal.Sending.{evaluation_of, endorsement_of, sending-Sends}
use fabric_gateway.Commit.{CommitImpl}
use fabric_gateway.Commit
use fabric_gateway.Commit.Sending.{status_request_of, get_status-Sends}
use fabric_gateway.Proposal.Sharing
use fabric_gateway.Proposal.Sharing.{sending-Extends}
use fabric_gateway.Transaction.{
  TransactionImpl, transaction_signable, new_submit_request, new_submitted_transaction,
}
use fabric_gateway.Transaction
use fabric_gateway.Transaction.Sending.{submission_of, submit-Sends}
use fabric_gateway.Transaction.Sharing.{submit-Extends, Extends as TransactionExtends}
use fabric_gateway.Commit.{commit_signable}
use fabric_gateway.Contract.{evaluate, submit}
use fabric_gateway.Contract.Calls.{submit-calls}
use fabric_gateway.Tests.Wires.{protos}
use fabric_gateway.Tests.Run.{run}
use fabric_gateway.Tests.World.{identity, node, answering, rejecting, contract}
use fabric_gateway.Tests.Objects.{unsigned_proposal, unsigned_transaction, unsigned_commit}

evaluate_run : (evaluate protos node answering contract "get" none []).0 ≡ ok (41 ∷ [])
unfolding run
evaluate_run = refl

submit_run : (submit protos node answering contract "put" none []).0 ≡ ok (42 ∷ [])
unfolding run
submit_run = refl

calls_run :
    calls (submit protos node answering contract "put" none []).1
    ≡ endorse_method ∷ submit_method ∷ commit_status_method ∷ []
unfolding run
calls_run = refl

rejected_run : calls (submit protos node rejecting contract "put" none []).1 ≡ endorse_method ∷ []
unfolding run
rejected_run = refl

submit-calls_example :
    Makes calls
      (endorse_method ∷ submit_method ∷ commit_status_method ∷ [])
      (submit protos node answering contract "put" none)
submit-calls_example = submit-calls protos node answering contract "put" none

abbrev signature_of : ProposalImpl → Bytes
signature_of p = p.proposal.signature

sending-Sends_example :
    Sends signature_of [] identity.signer
      (identity.hash unsigned_proposal.proposal.proposal_bytes)
      (evaluation_of protos unsigned_proposal)
      []
      (Proposal.evaluate protos node answering none (unsigned_proposal, []))
    × Sends signature_of [] identity.signer
        (identity.hash unsigned_proposal.proposal.proposal_bytes)
        (endorsement_of protos unsigned_proposal)
        []
        (Proposal.endorse protos node answering none (unsigned_proposal, []))
sending-Sends_example = sending-Sends protos node answering none unsigned_proposal []

sending-Extends_example :
    Sharing.Extends unsigned_proposal
      (Proposal.evaluate protos node rejecting none (unsigned_proposal, [])).1.0
    × Sharing.Extends unsigned_proposal
        (Proposal.endorse protos node rejecting none (unsigned_proposal, [])).1.0
sending-Extends_example = sending-Extends protos node rejecting none unsigned_proposal [] refl

submit-Sends_example :
    Sends
      (λ (t : TransactionImpl). t.envelope.signature)
      []
      identity.signer
      (identity.hash unsigned_transaction.envelope.payload)
      (submission_of protos unsigned_transaction)
      []
      (Transaction.submit protos answering none (unsigned_transaction, []))
submit-Sends_example = submit-Sends protos answering none unsigned_transaction []

get_status-Sends_example :
    Sends
      (λ (c : CommitImpl). c.signed_request.signature)
      []
      identity.signer
      (identity.hash unsigned_commit.signed_request.request)
      (status_request_of protos unsigned_commit)
      []
      (Commit.get_status protos answering none (unsigned_commit, []))
get_status-Sends_example = get_status-Sends protos answering none unsigned_commit []

submit-Extends_example :
    TransactionExtends unsigned_transaction
      (Transaction.submit protos rejecting none (unsigned_transaction, [])).1.0
submit-Extends_example = submit-Extends protos rejecting none unsigned_transaction [] refl
