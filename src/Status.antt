-- ===== src/Status.antt =====
-- node/src/status.ts and node/src/commiterror.ts: validation codes, their names, and the error of a
-- transaction that was committed with an unsuccessful code.
use Prim.Native.String.{◌++◌}
use fabric_gateway.Base.{ℕ, String, Option, none, some, List, [], ◌∷◌, Bool, ◌==◌, if◌then◌else◌}
use fabric_gateway.Js.{JsValue, undefined, number, str, other}
use fabric_gateway.Js.Text.{number_to_string}
use fabric_gateway.Errors.{CommitError}
use fabric_gateway.Protos.{Protos}

-- `Object.entries(StatusCode).filter(...).map(([name, code]) => [code, name])`
swap_numbers : List (String × JsValue) → List (ℕ × String)
swap_numbers [] = []
swap_numbers ((name, number code) ∷ entries) = (code, name) ∷ swap_numbers entries
swap_numbers ((name, undefined) ∷ entries) = swap_numbers entries
swap_numbers ((name, str _) ∷ entries) = swap_numbers entries
swap_numbers ((name, other) ∷ entries) = swap_numbers entries

-- `Object.fromEntries(entries)[code]`: the last entry of a key counts.
last_entry : ℕ → List (ℕ × String) → Option String
last_entry code [] = none
last_entry code ((k, name) ∷ entries) = elim (last_entry code entries) [
  | some later ↦ some later
  | none ↦ if k == code then some name else none
]

-- `StatusNames[code]`
unfoldable pub status_name : Protos → ℕ → Option String
unfolding swap_numbers last_entry
status_name pb code = last_entry code (swap_numbers pb.tx_validation_code)

pub record Status : Type 0 where
  pub block_number : ℕ
  pub code : ℕ
  pub successful : Bool
  pub transaction_id : String

-- A missing name prints as `undefined`.
abbrev pub shown : Option String → String
shown none = "undefined"
shown (some name) = name

unfoldable pub new_commit_error : Protos → Status → CommitError
new_commit_error pb status = record {
  message =
      "Transaction "
      ++ status.transaction_id
      ++ " failed to commit with status code "
      ++ number_to_string status.code
      ++ " ("
      ++ shown (status_name pb status.code)
      ++ ")";
  code = status.code;
  transaction_id = status.transaction_id;
}
