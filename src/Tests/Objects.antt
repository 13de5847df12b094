-- ===== src/Tests/Objects.antt =====
-- Objects of the concrete world: a proposal, a transaction and a commit, unsigned and signed.
use fabric_gateway.Base.{some, [], ◌∷◌, Bytes}
use fabric_gateway.Protos.Peer.{SignedProposal}
use fabric_gateway.Protos.Gateway.{ProposedTransaction, PreparedTransaction}
use fabric_gateway.Proposal.{ProposalImpl}
use fabric_gateway.Transaction.{TransactionImpl}
use fabric_gateway.Commit.{CommitImpl}
use fabric_gateway.Tests.Wires.{protos}
use fabric_gateway.Tests.World.{identity, endorsed, channel_header}

abbrev signed_by : Bytes → SignedProposal
signed_by b = record {
  proposal_bytes = protos.proposal_proto.serialize_binary (record {
    header = protos.header.serialize_binary (record {
      channel_header = protos.channel_header.serialize_binary channel_header;
      signature_header = [];
    });
    payload = 3 ∷ [];
  });
  signature = b;
}

abbrev proposed_by : Bytes → ProposedTransaction
proposed_by b = record {
  transaction_id = "a1";
  proposal = some (signed_by b);
  endorsing_organizations = "Org1MSP" ∷ [];
}

abbrev pub proposal_by : Bytes → ProposalImpl
proposal_by b = record {
  signing_identity = identity;
  channel_name = "mychannel";
  proposed_transaction = proposed_by b;
  proposal = signed_by b;
}

abbrev pub unsigned_proposal : ProposalImpl
unsigned_proposal = proposal_by []

abbrev pub prepared : PreparedTransaction
prepared = record { transaction_id = "a1"; envelope = some endorsed }

abbrev pub unsigned_transaction : TransactionImpl
unsigned_transaction = record {
  signing_identity = identity;
  channel_name = "mychannel";
  prepared_transaction = prepared;
  envelope = endorsed;
  result = 42 ∷ [];
}

abbrev pub unsigned_commit : CommitImpl
unsigned_commit = record {
  signing_identity = identity;
  transaction_id = "a1";
  signed_request = record {
    request =
        protos.commit_status_request.serialize_binary
          (record { transaction_id = "a1"; channel_id = "mychannel"; identity = 5 ∷ 6 ∷ [] });
    signature = [];
  };
}
