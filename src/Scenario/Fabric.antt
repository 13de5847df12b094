-- ===== src/Scenario/Fabric.antt =====
-- scenario/node/src/fabric.ts: the Fabric network of the scenarios, run by commands of the host. What
-- the commands print is a parameter; what is written to the console is left out.
mod Commands
pub mod Organizations
pub mod Channels
pub mod Chaincode
pub mod Deploying
pub mod Operations
pub mod Quiet
pub mod Library
pub mod Peers
pub mod Joins
pub mod Joining
pub use Commands.*
pub use Organizations.*
use Prim.Native.String.{◌++◌}
use Prim.Native.Char.{code}
use text.Mathlib.Text.{◌==◌}
use mathlib.Core.List.{◌++◌ as append}
use fabric_gateway.Base.{
  ℕ, ◌+◌, ◌-◌, ◌*◌, String, Option, none, some, List, [], ◌∷◌, Bool, true, false, not, leb, ◌&&◌,
  if◌then◌else◌, map,
}
use fabric_gateway.Js.Object.{Object, get, put}
use fabric_gateway.Js.Text.{number_to_string}
use fabric_gateway.Js.Number.{to_number_nat}
use fabric_gateway.Effect.{
  Result, ok, err, Step, pure, throw, of_result, map_err, gets, modify, ◌>>=◌, ◌>>◌,
}
use fabric_gateway.Effect.Whole.{for_each, discard}
use fabric_gateway.Errors.{JsError, new_error, Thrown, throw_error}

pub record Fabric : Type 0 where
  pub fabric_running : Bool
  pub channels_joined : Bool
  pub running_chaincodes : Object String
  pub running_peers : Object Bool

-- A call that may change the state of the driver, and asks things of the host.
abbrev pub Driver : Type 0 → Type 0
Driver A = Step Thrown (Fabric × Log) A

-- The text before the first colon.
abbrev host_of : String → String
host_of String.[] = ""
host_of (String.◌∷◌ c s) =
    let rest = host_of s in if String.◌∷◌ c "" == ":" then "" else String.◌∷◌ c rest

abbrev from_entries : List String → Object Bool → Object Bool
from_entries [] o = o
from_entries (p ∷ ps) o = from_entries ps (put p true o)

abbrev peers_of : Object OrgInfo → List String
peers_of [] = []
peers_of ((name, org) ∷ rest) = append org.peers (peers_of rest)

unfoldable pub initial_peers : Object Bool
unfolding put
initial_peers = from_entries (map host_of (peers_of orgs)) []

-- The constructor.
unfoldable pub new_fabric : Fabric
unfolding initial_peers
new_fabric = record {
  fabric_running = false;
  channels_joined = false;
  running_chaincodes = [];
  running_peers = initial_peers;
}

abbrev pub keys : {V : Type 0} → Object V → List String
keys [] = []
keys ((k, v) ∷ o) = k ∷ keys o

abbrev pub filter : {A : Type 0} → (A → Bool) → List A → List A
filter test [] = []
filter test (a ∷ items) = let rest = filter test items in if test a then a ∷ rest else rest

-- A missing property is falsy.
abbrev pub is_truthy : Option Bool → Bool
is_truthy none = false
is_truthy (some b) = b

abbrev pub stopped_peers : Object Bool → List String
stopped_peers o = filter (λ p. not (is_truthy (get p o))) (keys o)

abbrev pub set_running : String → Bool → Fabric × Log → Fabric × Log
set_running peer b (f, l) = (record f { running_peers = put peer b f.running_peers }, l)

-- A decimal numeral, as the pattern of a sequence number matches it.
abbrev parse_int : ℕ → String → ℕ
parse_int n String.[] = n
parse_int n (String.◌∷◌ c s) =
    let d = code c - 48 in
    let more = parse_int (n * 10 + d) s in if leb 48 (code c) && leb (code c) 57 then more else n

abbrev pub next_sequence : String → String
next_sequence s = number_to_string (to_number_nat (to_number_nat (parse_int 0 s) + 1))

abbrev pub tls_options : List String
tls_options =
    "--tls" ∷ "true" ∷ "--cafile"
    ∷ "/etc/hyperledger/configtx/crypto-config/ordererOrganizations/example.com/tlsca/tlsca.example.com-cert.pem"
    ∷ []

abbrev pub output_text : Host → Option String → Result Thrown String
output_text host none = err (Thrown.error host.null_output)
output_text host (some text) = ok text

abbrev pub sleep : ℕ → Driver (Unit {0})
sleep ms (f, l) = (ok tt, (f, Activity.slept ms ∷ l))

-- The first two entries of a match are the whole and the first group.
abbrev pub group : Thrown → Option (List String) → Result Thrown String
group failure (some (whole ∷ first ∷ rest)) = ok first
group failure (some (whole ∷ [])) = err failure
group failure (some []) = err failure
group failure none = err failure

module _ (host : Host) where
  abbrev pub spawn : Command → Driver String
  spawn c (f, l) =
      (output_text host (host.spawn_sync l c), (f, Activity.spawned c (host.spawn_sync l c) ∷ l))

  abbrev pub exec_file : String → List String → Driver String
  exec_file file args (f, l) =
      let c : Command = record { file = file; args = args; cwd = some host.fixtures_dir } in
      (host.exec_file_sync l c, (f, Activity.executed c ∷ l))

  unfoldable pub docker_command : List String → Driver String
  docker_command args = spawn (record { file = "docker"; args = args; cwd = none })

  unfoldable pub docker_command_with_tls : List String → Driver String
  unfolding docker_command
  docker_command_with_tls args = docker_command (append args tls_options)

  abbrev pub compose : List String → Driver String
  compose args = spawn (record {
    file = "docker-compose";
    args = append ("-f" ∷ "docker-compose-tls.yaml" ∷ "-p" ∷ "node" ∷ []) args;
    cwd = some (host.join (host.fixtures_dir ∷ "docker-compose" ∷ []));
  })

  unfoldable pub docker_down : Driver (Unit {0})
  unfolding discard
  docker_down = discard (compose ("down" ∷ []))

  unfoldable pub keep_running : Driver (Unit {0})
  keep_running = do modify (λ s. (record (s.0) { fabric_running = true }, s.1)); sleep 20000

  unfoldable pub start_network : Driver (Unit {0})
  unfolding keep_running
  start_network = do exec_file "./generate.sh" []; compose ("up" ∷ "-d" ∷ []); keep_running

  unfoldable pub deploy_network : Driver (Unit {0})
  unfolding start_network
  deploy_network = do
    running ← gets (λ s. s.0.fabric_running)
    if running then pure tt else start_network

  unfoldable pub generate_hsm_user : String → Driver (Unit {0})
  unfolding discard
  generate_hsm_user hsmuserid = discard (exec_file "./generate-hsm-user.sh" (hsmuserid ∷ []))

  unfoldable pub stop_peer : String → Driver (Unit {0})
  unfolding docker_command
  stop_peer peer = do docker_command ("stop" ∷ peer ∷ []); modify (set_running peer false)

  abbrev pub start_one : String → Driver (Unit {0})
  start_one peer = do docker_command ("start" ∷ peer ∷ []); modify (set_running peer true)

  unfoldable pub start_peer : String → Driver (Unit {0})
  unfolding docker_command
  start_peer peer = start_one peer >> sleep 20000

  abbrev start_listed : List String → Driver (Unit {0})
  start_listed [] = pure tt
  start_listed (p ∷ ps) = for_each start_one (p ∷ ps) >> sleep 20000

  unfoldable pub start_all_peers : Driver (Unit {0})
  unfolding docker_command
  start_all_peers = gets (λ s. stopped_peers s.0.running_peers) >>= start_listed
