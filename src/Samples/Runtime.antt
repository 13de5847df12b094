-- ===== src/Samples/Runtime.antt =====
-- What the sample applications do with Node.js: a console, connections and a security module, and
-- `await`, which may never be answered.
use fabric_gateway.Base.{ℕ, String, List, ◌∷◌, Bytes, Bool, true, false, if◌then◌else◌}
use fabric_gateway.Effect.{Result, ok, err, Step, map_err}
use fabric_gateway.Errors.{JsError, Thrown, error, Event, History, M}
use fabric_gateway.Platform.{Platform}
use fabric_gateway.Identity.Pkcs11.{Calls, Hsm}
use fabric_gateway.Scenario.Context.{Connection}
use fabric_gateway.Scenario.Fixtures.{Files}
use fabric_gateway.Scenario.Utils.{Inspection}

-- What a sample has printed, a list of arguments for each line, which connections it has closed and
-- which calls it has made of the PKCS#11 library, the latest first.
pub record Machine : Type 0 where
  pub printed : List (List String)
  pub closed : List Connection
  pub hsm_calls : Calls

-- What a sample takes from Node.js: files and keys, `path.resolve`, `__dirname`, the text of a date, and
-- the texts of errors and of bytes: as UTF-8, and by `toString` of an array of bytes.
pub record Setting : Type 0 where
  pub files : Files
  pub resolve : List String → String
  pub dirname : String
  pub to_iso_string : ℕ → String
  pub util : Inspection
  pub to_string : Bytes → String

-- Why a sample does not go on: something is thrown, or a promise is never settled.
pub data Stop : Type 0 where
  thrown : Thrown → Stop
  waiting : Stop

abbrev pub Sample : Type 0 → Type 0
Sample A = Step Stop (Machine × History) A

-- An exception that escapes from a callback of gRPC settles no promise.
abbrev pub is_pending : Stop → Bool
is_pending waiting = true
is_pending (thrown (Thrown.error e)) = false
is_pending (thrown (Thrown.suppressed e es)) = false
is_pending (thrown (Thrown.gateway_error g)) = false
is_pending (thrown (Thrown.endorse_error g id)) = false
is_pending (thrown (Thrown.submit_error g id)) = false
is_pending (thrown (Thrown.commit_status_error g id)) = false
is_pending (thrown (Thrown.commit_error e)) = false
is_pending (thrown (Thrown.uncaught e)) = true

-- A call of the client library.
abbrev pub of_call :
    {A : Type 0} → Machine → Result Thrown A × History → Result Stop A × (Machine × History)
of_call t (r, h) = (map_err thrown r, (t, h))

unfoldable pub call : {A : Type 0} → M A → Sample A
call m (t, h) = of_call t (m h)

abbrev pub of_hsm :
    {A : Type 0}
    → Machine
    → History
    → Result JsError A × Calls
    → Result Stop A × (Machine × History)
of_hsm t h (r, calls) = (map_err (λ e. thrown (error e)) r, (record t { hsm_calls = calls }, h))

-- A call of an HSM signer or its factory.
unfoldable pub call_hsm : {A : Type 0} → Hsm A → Sample A
call_hsm m (t, h) = of_hsm t h (m t.hsm_calls)

unfoldable pub attempt : {A : Type 0} → Result Thrown A → Sample A
attempt r s = (map_err thrown r, s)

-- `console.log(…)`
unfoldable pub log : List String → Sample (Unit {0})
log line (t, h) = (ok tt, (record t { printed = line ∷ t.printed }, h))

-- `client.close()`
unfoldable pub close_connection : Connection → Sample (Unit {0})
close_connection client (t, h) = (ok tt, (record t { closed = client ∷ t.closed }, h))

abbrev pub keep_result :
    {A : Type 0}
    → Result Stop A
    → Result Stop (Unit {0}) × (Machine × History)
    → Result Stop A × (Machine × History)
keep_result r (ok _, s) = (r, s)
keep_result r (err e, s) = (err e, s)

abbrev pub finish :
    {A : Type 0}
    → Sample (Unit {0})
    → Result Stop A × (Machine × History)
    → Result Stop A × (Machine × History)
finish cleanup (ok a, s) = keep_result (ok a) (cleanup s)
finish cleanup (err e, s) = if is_pending e then (err e, s) else keep_result (err e) (cleanup s)

-- `try { body } finally { cleanup }`
unfoldable pub try_finally : {A : Type 0} → Sample A → Sample (Unit {0}) → Sample A
try_finally body cleanup s = finish cleanup (body s)

abbrev pub recover :
    (Thrown → Sample (Unit {0}))
    → Result Stop (Unit {0}) × (Machine × History)
    → Result Stop (Unit {0}) × (Machine × History)
recover handler (ok _, s) = (ok tt, s)
recover handler (err waiting, s) = (err waiting, s)
recover handler (err (thrown e), s) =
    if is_pending (thrown e) then (err (thrown e), s) else handler e s

-- `try { body } catch (err) { handler }`
unfoldable pub try_catch : Sample (Unit {0}) → (Thrown → Sample (Unit {0})) → Sample (Unit {0})
try_catch body handler s = recover handler (body s)

-- `new Date().toISOString()`
unfoldable pub iso_timestamp : Platform → Setting → Sample String
iso_timestamp node setting (t, h) =
    (ok (setting.to_iso_string (node.date_now h)), (t, Event.now ∷ h))
