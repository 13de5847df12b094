-- ===== src/Tests/Draining.antt =====
-- The theorems about reading events at concrete inputs.
use fabric_gateway.Base.{refl, zero, suc, List, [], ◌∷◌, arith}
use fabric_gateway.Errors.{Thrown}
use fabric_gateway.Protos.Gateway.{ChaincodeEventProto, ChaincodeEventsResponse}
use fabric_gateway.Client.{value, done, Reads}
use fabric_gateway.Events.{start}
use fabric_gateway.Events.Draining.{finished, Yields, no_more, more, all_events, start-Yields}

abbrev event : ChaincodeEventProto
event = record { chaincode_id = "basic"; tx_id = "a1"; event_name = "made"; payload = 3 ∷ [] }

-- Two events of block 5, no event of block 6, and one of block 7.
abbrev responses : List ChaincodeEventsResponse
responses =
    record { events = event ∷ event ∷ []; block_number = 5 }
    ∷ record { events = []; block_number = 6 }
    ∷ record { events = event ∷ []; block_number = 7 }
    ∷ []

abbrev read : List ChaincodeEventsResponse → Reads Thrown ChaincodeEventsResponse
read [] n = done
read (r ∷ rs) zero = value r
read (r ∷ rs) (suc n) = read rs n

start-Yields_example : Yields 4 (read responses) start (all_events responses) finished
start-Yields_example =
    start-Yields (read responses) 4 responses finished
      (more refl (more refl (more refl (no_more refl)))) (omega arith)
