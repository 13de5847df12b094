-- ===== src/TransactionParser/Endorsed.antt =====
-- The envelope of an endorsed transaction, as a gateway makes it, and what the parser reads of it.
use fabric_gateway.Base.{◌≡◌, some, List, [], ◌∷◌, Bytes}
use fabric_gateway.Effect.{ok}
use fabric_gateway.Platform.{Platform}
use fabric_gateway.Protos.{Protos, RoundTrips}
use fabric_gateway.Protos.Peer.{Envelope, ChannelHeader, TransactionAction}
use fabric_gateway.TransactionParser.{
  parse_result_from_transaction_action, parse_first, parse_result_from_payload,
  parse_channel_name_from_header, parse_transaction_envelope,
}

module _ (pb : Protos) where
  -- An action that carries the result of the transaction function.
  abbrev pub action_of : Bytes → TransactionAction
  action_of result = record {
    payload = pb.chaincode_action_payload.serialize_binary (record {
      action = some (record {
        proposal_response_payload = pb.proposal_response_payload.serialize_binary (record {
          extension =
              pb.chaincode_action.serialize_binary
                (record { response = some (record { payload = result }) });
        });
      });
    });
  }

  -- The envelope, unsigned, of a transaction whose first action carries the result.
  abbrev pub envelope_of : ChannelHeader → Bytes → Bytes → List TransactionAction → Envelope
  envelope_of channel signature_header result others = record {
    payload = pb.payload.serialize_binary (record {
      header = some (record {
        channel_header = pb.channel_header.serialize_binary channel;
        signature_header = signature_header;
      });
      data_bytes =
          pb.transaction_proto.serialize_binary (record { actions = action_of result ∷ others });
    });
    signature = [];
  }

module _ (pb : Protos) (laws : RoundTrips pb) (node : Platform) where
  parse-action_of :
      (result : Bytes)
      → parse_result_from_transaction_action pb node (action_of pb result) ≡ ok result
  unfolding parse_result_from_transaction_action
  parse-action_of result =
      rw (laws.chaincode_action_payload _)
        (rw (laws.proposal_response_payload _) (rw (laws.chaincode_action _)))

  -- The parser reads back the channel and the result.
  pub parse-envelope_of :
      (channel : ChannelHeader) (signature_header result : Bytes) (others : List TransactionAction)
      → parse_transaction_envelope pb node (envelope_of pb channel signature_header result others)
        ≡ ok (record { channel_name = channel.channel_id; result = result })
  unfolding parse_transaction_envelope parse_channel_name_from_header parse_result_from_payload
      parse_first
  parse-envelope_of channel signature_header result others = rw (laws.payload _) (
      rw (laws.channel_header channel)
        (rw (laws.transaction_proto _) (rw (parse-action_of result, parse_first))))
