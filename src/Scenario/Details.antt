-- ===== src/Scenario/Details.antt =====
-- The step that compares error details with the rows of a table, in scenario/node/src/scenario_steps.ts.
-- The error comes from `getErrorOfType`; the assertion library is a parameter, by the test for
-- contained text and by what a failed expectation throws.
use text.Mathlib.Text.{◌==◌}
use fabric_gateway.Base.{
  ◌≡◌, refl, String, Option, none, some, List, [], ◌∷◌, Bool, true, false, not, ◌&&◌, ◌||◌, length,
  arith,
}
use fabric_gateway.Base.{◌==◌ as is_same}
use fabric_gateway.Js.Object.{Object, get, put, delete, get-delete}
use fabric_gateway.Effect.{Result, ok, err, then_result}
use fabric_gateway.Errors.{Thrown, ErrorDetail, GatewayError}

-- `err instanceof GatewayError`
abbrev pub gateway_error_of : Thrown → Option GatewayError
gateway_error_of (Thrown.gateway_error g) = some g
gateway_error_of (Thrown.endorse_error g id) = some g
gateway_error_of (Thrown.submit_error g id) = some g
gateway_error_of (Thrown.commit_status_error g id) = some g
gateway_error_of (Thrown.error e) = none
gateway_error_of (Thrown.suppressed e es) = none
gateway_error_of (Thrown.commit_error e) = none
gateway_error_of (Thrown.uncaught e) = none

-- The rows hold address, MSP and message.
unfoldable pub expected_details : List ErrorDetail → Object ErrorDetail → Object ErrorDetail
expected_details [] o = o
expected_details (row ∷ rows) o = expected_details rows (put row.address row o)

-- `Object.keys` of a `Map`, which has no properties of its own.
abbrev own_keys : Object ErrorDetail → List String
own_keys o = []

abbrev is_listed : String → List ErrorDetail → Bool
is_listed address [] = false
is_listed address (d ∷ ds) = (address == d.address) || is_listed address ds

-- No two details are of one address.
abbrev pub are_distinct : List ErrorDetail → Bool
are_distinct [] = true
are_distinct (d ∷ ds) = not (is_listed d.address ds) && are_distinct ds

abbrev pub passes : {A : Type 0} → Result Thrown A → Bool
passes (ok a) = true
passes (err e) = false

module _ (contains : String → String → Bool) (failed : Thrown) where
  abbrev expect : Bool → Result Thrown (Unit {0})
  expect true = ok tt
  expect false = err failed

  abbrev is_met : Option ErrorDetail → ErrorDetail → Bool
  is_met none actual = false
  is_met (some expected) actual = contains actual.message expected.message

  unfoldable pub check_details :
      List ErrorDetail → Object ErrorDetail → Result Thrown (Object ErrorDetail)
  check_details [] expected = ok expected
  check_details (actual ∷ rest) expected =
      then_result (expect (is_met (get actual.address expected) actual))
        λ _. check_details rest (delete actual.address expected)

  unfoldable pub error_details_should_be :
      GatewayError → List ErrorDetail → Result Thrown (Unit {0})
  unfolding expected_details check_details
  error_details_should_be e rows =
      then_result (check_details e.details (expected_details rows []))
        λ left. expect (is_same (length (own_keys left)) 0)

  -- The details, without regard to what the check has seen before.
  abbrev pub are_expected : List ErrorDetail → Object ErrorDetail → Bool
  are_expected [] expected = true
  are_expected (d ∷ ds) expected = is_met (get d.address expected) d && are_expected ds expected

  are_expected-delete :
      (address : String) (ds : List ErrorDetail) (expected : Object ErrorDetail)
      → are_expected ds (delete address expected)
        ≡ (are_expected ds expected && not (is_listed address ds))
  are_expected-delete address [] expected = refl
  are_expected-delete address (d ∷ ds) expected =
      ground (arith, are_expected-delete address ds expected, get-delete address d.address expected)

  check_details-passes :
      (ds : List ErrorDetail) (expected : Object ErrorDetail)
      → passes (check_details ds expected) ≡ (are_expected ds expected && are_distinct ds)
  unfolding check_details
  check_details-passes [] expected = refl
  check_details-passes (d ∷ ds) expected = ground (
    arith,
    check_details-passes ds (delete d.address expected),
    are_expected-delete d.address ds expected,
  )

  -- The step passes exactly where each detail of the error has a message that contains the message
  -- in the row of its address, and no two details are of one address. A row that no detail answers to
  -- does not matter.
  pub error_details_should_be-passes :
      (e : GatewayError) (rows : List ErrorDetail)
      → passes (error_details_should_be e rows)
        ≡ (are_expected e.details (expected_details rows []) && are_distinct e.details)
  unfolding error_details_should_be
  error_details_should_be-passes e rows =
      ground (arith, check_details-passes e.details (expected_details rows []))
