-- ===== src/Scenario/Utils.antt =====
-- scenario/node/src/utils.ts, and what the driver takes from Node.js besides.
use Prim.Native.String.{◌++◌}
use fabric_gateway.Base.{String, Option, none, some, Bytes, if◌then◌else◌}
use fabric_gateway.Effect.{Result, ok}
use fabric_gateway.Errors.{JsError, new_error, throw_error, Thrown, error}

-- `inspect` of what may be thrown or be missing, and the decoding of UTF-8, where nothing decodes to
-- the empty text.
pub record Inspection : Type 0 where
  pub inspect : Option Thrown → String
  pub decode : Bytes → String

unfoldable pub bytes_as_string : Inspection → Option Bytes → String
bytes_as_string util none = ""
bytes_as_string util (some bytes) = util.decode bytes

unfoldable pub to_string : Inspection → Option Thrown → String
to_string util thing = util.inspect thing

-- `err instanceof Error`: the classes of the library are errors.
unfoldable pub to_error : Inspection → Thrown → Thrown
unfolding to_string
to_error util (error e) =
    if e.is_error then error e else error (new_error (to_string util (some (error e))))
to_error util e = e

unfoldable pub assert_defined {ℓ} : {A : Type ℓ} → Option A → String → Result JsError A
assert_defined none property = throw_error ("Bad step sequence: " ++ property ++ " not defined")
assert_defined (some value) property = ok value
