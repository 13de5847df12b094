-- ===== src/Scenario/Fabric/Commands.antt =====
-- What the Fabric network driver, scenario/node/src/fabric.ts, asks of the host.
use fabric_gateway.Base.{ℕ, String, Option, List, Bool}
use fabric_gateway.Effect.{Result}
use fabric_gateway.Errors.{JsError, Thrown}

-- A command with its arguments, and the directory it runs in where that is given.
pub record Command : Type 0 where
  pub file : String
  pub args : List String
  pub cwd : Option String

-- What has been asked of the host, the latest first: a command that is spawned, with its output if it
-- could be spawned; a file that is executed; a file that is looked for; a wait in milliseconds.
pub data Activity : Type 0 where
  spawned : Command → Option String → Activity
  executed : Command → Activity
  looked_for : String → Activity
  slept : ℕ → Activity

abbrev pub Log : Type 0
Log = List Activity

-- `spawnSync(…).output`, which is null where nothing could be spawned, and the error of reading that;
-- `execFileSync`; `fs.existsSync`; `text.match(new RegExp(pattern))`, the whole match first; and
-- `path.join` with the directory that holds the fixtures.
pub record Host : Type 0 where
  pub spawn_sync : Log → Command → Option String
  pub null_output : JsError
  pub exec_file_sync : Log → Command → Result Thrown String
  pub exists_sync : Log → String → Bool
  pub match_text : String → String → Result JsError (Option (List String))
  pub join : List String → String
  pub fixtures_dir : String
