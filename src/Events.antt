-- ===== src/Events.antt =====
-- Chaincode events: node/src/chaincodeevent.ts (the iterator of events), chaincodeeventsbuilder.ts
-- and chaincodeeventsrequest.ts (in the child `Request`).
pub mod Request
pub mod Draining
pub mod Signing
pub mod Streaming
pub mod Closing
use fabric_gateway.Base.{
  ℕ, zero, suc, ◌+◌, String, Option, none, some, List, [], ◌∷◌, map, Bytes, Bool, true, false,
}
use fabric_gateway.Errors.{Thrown, M}
use fabric_gateway.Protos.Gateway.{ChaincodeEventProto, ChaincodeEventsResponse}
use fabric_gateway.Client.{Read, value, done, failed, Reads, CloseableAsyncIterable}

pub record ChaincodeEvent : Type 0 where
  pub block_number : ℕ
  pub transaction_id : String
  pub chaincode_name : String
  pub event_name : String
  pub payload : Bytes

unfoldable pub new_chaincode_event : ℕ → ChaincodeEventProto → ChaincodeEvent
new_chaincode_event block_number event = record {
  block_number = block_number;
  transaction_id = event.tx_id;
  chaincode_name = event.chaincode_id;
  event_name = event.event_name;
  payload = event.payload;
}

-- Where the generator stands: before it has read response number `position`, with the events of the
-- current block that it has not yielded yet; or it has ended.
pub data Generator : Type 0 where
  running : (position block_number : ℕ) → List ChaincodeEventProto → Generator
  ended : Generator

abbrev pub start : Generator
start = running 0 0 []

-- One call of the generator's `next`: it yields an event that is left, or reads responses until one
-- has an event, the responses end, or a read fails. A read takes fuel; `none` is a call that
-- has run out of it.
unfoldable pub next :
    ℕ
    → Reads Thrown ChaincodeEventsResponse
    → Generator
    → Option (Read Thrown ChaincodeEvent × Generator)
next f reads ended = some (done, ended)
next f reads (running i block_number (event ∷ events)) =
    some (value (new_chaincode_event block_number event), running i block_number events)
next zero reads (running i block_number []) = none
next (suc f) reads (running i block_number []) = elim (reads i) [
  | value response ↦ next f reads (running (i + 1) response.block_number response.events)
  | done ↦ some (done, ended)
  | failed e ↦ some (failed e, ended)
]

-- The iterable that `newChaincodeEvents` makes of the responses: a generator and its `close`.
pub record ChaincodeEvents : Type 0 where
  pub responses : Reads Thrown ChaincodeEventsResponse
  pub generator : Generator
  pub close : M (Unit {0})

unfoldable pub new_chaincode_events :
    CloseableAsyncIterable ChaincodeEventsResponse → ChaincodeEvents
new_chaincode_events responses = record {
  responses = responses.reads;
  generator = start;
  close = responses.close;
}
