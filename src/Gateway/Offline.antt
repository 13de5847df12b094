-- ===== src/Gateway/Offline.antt =====
-- Signing off line, by the `newSigned` methods of node/src/gateway.ts and the `getBytes` of the
-- objects.
use fabric_gateway.Base.{◌≡◌, ap, ◌∙◌, sym, Bytes}
use fabric_gateway.Effect.{Result, ok, err}
use fabric_gateway.Errors.{History, assert_defined}
use fabric_gateway.Platform.{Platform}
use fabric_gateway.Protos.{Protos, RoundTrips}
use fabric_gateway.Protos.Gateway.{PreparedTransaction}
use fabric_gateway.Signing.{SigningIdentity}
use fabric_gateway.Proposal.{ProposalImpl}
use fabric_gateway.Proposal
use fabric_gateway.ProposalBuilder.{ProposalBuilder, build}
use fabric_gateway.ProposalBuilder as Builder
use fabric_gateway.Transaction.{TransactionImpl, new_transaction_impl, new_submitted_transaction}
use fabric_gateway.Transaction
use fabric_gateway.Transaction.Sharing.{new_transaction_impl-prepared}
use fabric_gateway.Commit
use fabric_gateway.Events.Request.{
  ChaincodeEventsBuilderOptions, new_chaincode_events_request_proto,
}
use fabric_gateway.Events.Request
use fabric_gateway.Gateway.{
  new_signed_proposal, new_signed_transaction, new_signed_commit,
  new_signed_chaincode_events_request,
}

-- The value of a result that has one.
abbrev value_or : {E A : Type 0} → A → Result E A → A
value_or a (ok b) = b
value_or a (err e) = a

module _ (pb : Protos) (laws : RoundTrips pb) where
  -- The proposal that a builder makes is rebuilt from its bytes, with the new signature.
  pub new_signed_proposal-build :
      (node : Platform) (b : ProposalBuilder) (h : History) (p : ProposalImpl) (signature : Bytes)
      → (build pb node b h).0 ≡ ok p
      → new_signed_proposal pb b.options.signing_identity (Proposal.get_bytes pb p) signature
        ≡ ok (Proposal.set_signature signature p)
  unfolding new_signed_proposal build Proposal.get_bytes Proposal.new_proposal_impl assert_defined
      Builder.new_proposed_transaction Builder.new_signed_proposal Builder.new_proposal
      Builder.new_header Builder.new_channel_header
  new_signed_proposal-build node b h p signature e = rw (sym (ap (value_or p) e)) (
      rw (laws.proposed_transaction _)
        (rw (laws.proposal_proto _) (rw (laws.header _) (rw (laws.channel_header _)))))

  -- A transaction that the constructor made is rebuilt from its bytes, with the new signature.
  pub new_signed_transaction-get_bytes :
      (node : Platform) (identity : SigningIdentity) (prepared : PreparedTransaction)
      (t : TransactionImpl) (signature : Bytes)
      → new_transaction_impl pb node identity prepared ≡ ok t
      → new_signed_transaction pb node identity (Transaction.get_bytes pb t) signature
        ≡ ok (Transaction.set_signature signature t)
  unfolding new_signed_transaction Transaction.get_bytes
  new_signed_transaction-get_bytes node identity prepared t signature e =
      let same = new_transaction_impl-prepared pb node identity prepared t e in
      rw (laws.prepared_transaction t.prepared_transaction)
        (rw (ap (new_transaction_impl pb node identity) same ∙ e))

  -- The commit of a submitted transaction is rebuilt from its bytes, with the new signature.
  pub new_signed_commit-get_bytes :
      (t : TransactionImpl) (signature : Bytes)
      → let commit = (new_submitted_transaction pb t).commit in
        new_signed_commit pb t.signing_identity (Commit.get_bytes pb commit) signature
        ≡ ok (Commit.set_signature signature commit)
  unfolding new_signed_commit Commit.get_bytes new_submitted_transaction
      Transaction.new_signed_commit_status_request Transaction.new_commit_status_request
  new_signed_commit-get_bytes t signature =
      rw (laws.signed_commit_status_request _) (rw (laws.commit_status_request _))

-- A request for events is rebuilt from its bytes, with the new signature, where its message is read
-- back as it was.
pub new_signed_chaincode_events_request-build :
    (pb : Protos) (o : ChaincodeEventsBuilderOptions) (signature : Bytes)
    → pb.chaincode_events_request_proto.deserialize_binary
        (pb.chaincode_events_request_proto.serialize_binary (new_chaincode_events_request_proto o))
      ≡ ok (new_chaincode_events_request_proto o)
    → new_signed_chaincode_events_request pb o.signing_identity
        (Request.get_bytes (Request.build pb o))
        signature
      ≡ ok (Request.set_signature signature (Request.build pb o))
unfolding new_signed_chaincode_events_request Request.get_bytes Request.build
    Request.new_chaincode_events_request_impl
new_signed_chaincode_events_request-build pb o signature e = rw e
