-- ===== src/Tests/Samples.antt =====
-- The theorems about the sample applications, at concrete inputs.
use fabric_gateway.Base.{◌≡◌, refl, []}
use fabric_gateway.Effect.{ok}
use fabric_gateway.Errors.{History}
use fabric_gateway.Samples.Runtime.{Machine, Setting}
use fabric_gateway.Samples.Ending.{open_in}
use fabric_gateway.Samples.Made.Some.{MakesSome}
use fabric_gateway.Samples.Basic
use fabric_gateway.Samples.Basic.Calls.{submission}
use fabric_gateway.Samples.Basic.Order.{calls_before_last, main-calls}
use fabric_gateway.Samples.Hsm
use fabric_gateway.Samples.Hsm.Sessions.{main-sessions}
use fabric_gateway.Tests.Run.{run}
use fabric_gateway.Tests.Wires.{protos}
use fabric_gateway.Tests.World.{node}
use fabric_gateway.Tests.Scenario.{clients, util}
use fabric_gateway.Tests.Suite.{files, tokens}

abbrev setting : Setting
setting = record {
  files = files;
  resolve = λ parts. "path";
  dirname = "dirname";
  to_iso_string = λ time. "time";
  util = util;
  to_string = λ bytes. "bytes";
}

abbrev machine : Machine × History
machine = (record { printed = []; closed = []; hsm_calls = [] }, [])

hsm_run : (Hsm.main protos node setting tokens clients machine).0 ≡ ok tt
unfolding run
hsm_run = refl

main-sessions_example :
    open_in (Hsm.main protos node setting tokens clients machine).1 ≡ open_in machine
unfolding run
main-sessions_example = main-sessions protos node setting tokens clients machine tt

main_run : (Basic.main protos node setting clients 5 machine).0 ≡ ok tt
unfolding run
main_run = refl

main-calls_example :
    MakesSome calls_before_last submission (Basic.main protos node setting clients 5)
main-calls_example = main-calls protos node setting clients 5
