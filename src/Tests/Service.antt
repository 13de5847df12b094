-- ===== src/Tests/Service.antt =====
-- Codes of the gateway service's messages.
use fabric_gateway.Base.{refl, ℕ, zero, suc, ◌≡◌}
use fabric_gateway.Js.Number.{pos, negsuc}
use fabric_gateway.Protos.Gateway.{
  SeekPosition, next_commit, specified, SubmitResponse, submit_response, ProposedTransaction,
  EvaluateRequest, EvaluateResponse, EndorseRequest, EndorseResponse, PreparedTransaction,
  SubmitRequest, CommitStatusRequest, SignedCommitStatusRequest, CommitStatusResponse,
  ChaincodeEventsRequestProto, SignedChaincodeEventsRequest, ChaincodeEventProto,
  ChaincodeEventsResponse, ErrorDetailProto, AnyProto, StatusProto,
}
use fabric_gateway.Tests.Codec.{Codec, nat, bytes, via, string, pair, option, list}
use fabric_gateway.Tests.Peer.{envelope, signed_proposal, response}

-- A position by a tag and a number.
abbrev pub of_position : SeekPosition → ℕ × ℕ
of_position next_commit = (0, 0)
of_position (specified (pos n)) = (1, n)
of_position (specified (negsuc n)) = (2, n)

abbrev pub to_position : ℕ × ℕ → SeekPosition
to_position (zero, n) = next_commit
to_position (suc zero, n) = specified (pos n)
to_position (suc (suc k), n) = specified (negsuc n)

pub to_position-of_position : (p : SeekPosition) → to_position (of_position p) ≡ p
to_position-of_position next_commit = refl
to_position-of_position (specified (pos n)) = refl
to_position-of_position (specified (negsuc n)) = refl

abbrev pub seek_position : Codec SeekPosition
seek_position = via of_position to_position to_position-of_position (pair nat nat)

pub submit_response_same : (m : SubmitResponse) → submit_response ≡ m
submit_response_same submit_response = refl

abbrev pub submit_code : Codec SubmitResponse
submit_code = via (λ m. 0) (λ x. submit_response) submit_response_same nat

abbrev pub proposed_transaction : Codec ProposedTransaction
proposed_transaction =
    via (λ m. (m.transaction_id, (m.proposal, m.endorsing_organizations)))
      (λ x. record { transaction_id = x.0; proposal = x.1.0; endorsing_organizations = x.1.1 })
      (λ m. refl) (pair string (pair (option signed_proposal) (list string)))

abbrev pub evaluate_request : Codec EvaluateRequest
evaluate_request =
    via (λ m. (m.transaction_id, (m.channel_id, (m.proposed_transaction, m.target_organizations))))
      (λ x. record {
        transaction_id = x.0;
        channel_id = x.1.0;
        proposed_transaction = x.1.1.0;
        target_organizations = x.1.1.1;
      })
      (λ m. refl) (pair string (pair string (pair (option signed_proposal) (list string))))

abbrev pub evaluate_response : Codec EvaluateResponse
evaluate_response = via (λ m. m.result) (λ x. record { result = x }) (λ m. refl) (option response)

abbrev pub endorse_request : Codec EndorseRequest
endorse_request =
    via
      (λ m. (m.transaction_id, (m.channel_id, (m.proposed_transaction, m.endorsing_organizations))))
      (λ x. record {
        transaction_id = x.0;
        channel_id = x.1.0;
        proposed_transaction = x.1.1.0;
        endorsing_organizations = x.1.1.1;
      })
      (λ m. refl) (pair string (pair string (pair (option signed_proposal) (list string))))

abbrev pub endorse_response : Codec EndorseResponse
endorse_response =
    via (λ m. m.prepared_transaction) (λ x. record { prepared_transaction = x }) (λ m. refl)
      (option envelope)

abbrev pub prepared_transaction : Codec PreparedTransaction
prepared_transaction =
    via (λ m. (m.transaction_id, m.envelope)) (λ x. record { transaction_id = x.0; envelope = x.1 })
      (λ m. refl) (pair string (option envelope))

abbrev pub submit_request : Codec SubmitRequest
submit_request =
    via (λ m. (m.transaction_id, (m.channel_id, m.prepared_transaction)))
      (λ x. record { transaction_id = x.0; channel_id = x.1.0; prepared_transaction = x.1.1 })
      (λ m. refl) (pair string (pair string (option envelope)))

abbrev pub commit_status_request : Codec CommitStatusRequest
commit_status_request =
    via (λ m. (m.transaction_id, (m.channel_id, m.identity)))
      (λ x. record { transaction_id = x.0; channel_id = x.1.0; identity = x.1.1 }) (λ m. refl)
      (pair string (pair string bytes))

abbrev pub signed_commit_status_request : Codec SignedCommitStatusRequest
signed_commit_status_request =
    via (λ m. (m.request, m.signature)) (λ x. record { request = x.0; signature = x.1 }) (λ m. refl)
      (pair bytes bytes)

abbrev pub commit_status_response : Codec CommitStatusResponse
commit_status_response =
    via (λ m. (m.result, m.block_number)) (λ x. record { result = x.0; block_number = x.1 })
      (λ m. refl) (pair (option nat) nat)

abbrev pub chaincode_events_request_proto : Codec ChaincodeEventsRequestProto
chaincode_events_request_proto =
    via (λ m. (m.channel_id, (m.chaincode_id, (m.identity, m.start_position))))
      (λ x. record {
        channel_id = x.0;
        chaincode_id = x.1.0;
        identity = x.1.1.0;
        start_position = x.1.1.1;
      })
      (λ m. refl) (pair string (pair string (pair bytes (option seek_position))))

abbrev pub signed_chaincode_events_request : Codec SignedChaincodeEventsRequest
signed_chaincode_events_request =
    via (λ m. (m.request, m.signature)) (λ x. record { request = x.0; signature = x.1 }) (λ m. refl)
      (pair bytes bytes)

abbrev pub chaincode_event_proto : Codec ChaincodeEventProto
chaincode_event_proto =
    via (λ m. (m.chaincode_id, (m.tx_id, (m.event_name, m.payload))))
      (λ x. record { chaincode_id = x.0; tx_id = x.1.0; event_name = x.1.1.0; payload = x.1.1.1 })
      (λ m. refl) (pair string (pair string (pair string bytes)))

abbrev pub chaincode_events_response : Codec ChaincodeEventsResponse
chaincode_events_response =
    via (λ m. (m.events, m.block_number)) (λ x. record { events = x.0; block_number = x.1 })
      (λ m. refl) (pair (list chaincode_event_proto) nat)

abbrev pub error_detail_proto : Codec ErrorDetailProto
error_detail_proto =
    via (λ m. (m.address, (m.message, m.msp_id)))
      (λ x. record { address = x.0; message = x.1.0; msp_id = x.1.1 }) (λ m. refl)
      (pair string (pair string string))

abbrev pub any_proto : Codec AnyProto
any_proto = via (λ m. m.value) (λ x. record { value = x }) (λ m. refl) bytes

abbrev pub status_proto : Codec StatusProto
status_proto = via (λ m. m.details) (λ x. record { details = x }) (λ m. refl) (list any_proto)
