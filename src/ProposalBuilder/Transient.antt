-- ===== src/ProposalBuilder/Transient.antt =====
-- The transient map of a proposal's message (node/src/proposalbuilder.ts).
use fabric_gateway.Base.{◌≡◌, refl, ap, ◌∙◌, String, Option, some, none, [], ◌∷◌, Bytes, arith}
use fabric_gateway.Js.{Value}
use fabric_gateway.Js.Object.{
  Object, get, put, assign, or_else-none, get-assign, assign-HasDistinctKeys, HasDistinctKeys,
}
use fabric_gateway.Protos.{Protos}
use fabric_gateway.Signing.{or_default}
use fabric_gateway.ProposalBuilder.{
  ProposalBuilderOptions, as_bytes, put_bytes, get_transient_data, set_entries,
  new_chaincode_proposal_payload,
}

abbrev pub to_bytes : Option Value → Option Bytes
to_bytes none = none
to_bytes (some v) = some (as_bytes v)

abbrev all_bytes : Object Value → Object Bytes
all_bytes [] = []
all_bytes ((k, v) ∷ o) = (k, as_bytes v) ∷ all_bytes o

get-all_bytes : (k : String) (o : Object Value) → get k (all_bytes o) ≡ to_bytes (get k o)
unfolding get
get-all_bytes k [] = refl
get-all_bytes k ((j, v) ∷ o) = ground (arith, get-all_bytes k o)

all_bytes-HasDistinctKeys : (o : Object Value) → HasDistinctKeys o → HasDistinctKeys (all_bytes o)
all_bytes-HasDistinctKeys [] d = tt
all_bytes-HasDistinctKeys ((k, v) ∷ o) (fresh, d) =
    (get-all_bytes k o ∙ ap to_bytes fresh, all_bytes-HasDistinctKeys o d)

put_bytes-eq-assign :
    (result : Object Bytes) (o : Object Value) → put_bytes result o ≡ assign result (all_bytes o)
unfolding put_bytes assign
put_bytes-eq-assign result [] = refl
put_bytes-eq-assign result ((k, v) ∷ o) = put_bytes-eq-assign (put k (as_bytes v) result) o

set_entries-eq-assign : (m o : Object Bytes) → set_entries m o ≡ assign m o
unfolding set_entries assign
set_entries-eq-assign m [] = refl
set_entries-eq-assign m ((k, b) ∷ o) = set_entries-eq-assign (put k b m) o

get-assign_nil :
    {V : Type 0} (k : String) (o : Object V) → HasDistinctKeys o → get k (assign [] o) ≡ get k o
unfolding get
get-assign_nil k o d = get-assign k [] o d ∙ or_else-none (get k o)

-- A key of the message's transient map has the bytes of the value that the transient data has under
-- it, and there are no others.
pub get-transient_map :
    (pb : Protos) (o : ProposalBuilderOptions) (k : String)
    → HasDistinctKeys (or_default o.options.transient_data [])
    → get k (new_chaincode_proposal_payload pb o).transient_map
      ≡ to_bytes (get k (or_default o.options.transient_data []))
unfolding new_chaincode_proposal_payload get_transient_data
get-transient_map pb o k d =
    let values = or_default o.options.transient_data [] in
    rw (put_bytes-eq-assign [] values, set_entries-eq-assign [] (assign [] (all_bytes values)))
      (get-assign_nil k (assign [] (all_bytes values))
          (assign-HasDistinctKeys [] (all_bytes values) tt)
        ∙ (get-assign_nil k (all_bytes values) (all_bytes-HasDistinctKeys values d)
            ∙ get-all_bytes k values))
