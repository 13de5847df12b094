-- ===== src/Tests/Suite.antt =====
-- The theorems about scenarios and users of security modules, at concrete inputs.
use fabric_gateway.Base.{◌≡◌, refl, String, some, List, [], ◌∷◌, ◌++◌, true, false, arith}
use fabric_gateway.Js.Buffer.{to_hex}
use fabric_gateway.Effect.{ok}
use fabric_gateway.Errors.{Thrown, new_error}
use fabric_gateway.Scenario.Ski.{EcKey, get_ski_from_certificate, get_ski_from_certificate-point}
use fabric_gateway.Scenario.Fixtures.{Files}
use fabric_gateway.Scenario.HsmUsers.{Tokens, HsmState}
use fabric_gateway.Scenario.Context.Released.{HasClosed}
use fabric_gateway.Scenario.Fabric.{new_fabric}
use fabric_gateway.Scenario.World.{new_world}
use fabric_gateway.Scenario.Steps.{
  ScenarioStep, Surroundings, Suite, deployed_network, created_gateway, created_hsm_gateway,
  connect_gateway,
}
use fabric_gateway.Scenario.Running.{run_steps, enter, scenario}
use fabric_gateway.Scenario.Running.Released.{scenario-HasClosed}
use fabric_gateway.Tests.Run.{run}
use fabric_gateway.Tests.Wires.{protos}
use fabric_gateway.Tests.World.{node}
use fabric_gateway.Tests.Scenario.{clients, util}
use fabric_gateway.Tests.Network.{host}
use fabric_gateway.Tests.Hsm.{module_with_key, ec_sign, key}

abbrev ec_key : EcKey
ec_key = record {
  get_public_key_xy_hex = ok (record { x = to_hex (1 ∷ 255 ∷ []); y = to_hex (2 ∷ []) });
}

abbrev pub files : Files
files = record {
  read_file = λ path. ok (9 ∷ []);
  create_private_key = λ pem. ok key;
  ec_sign = ec_sign;
}

abbrev pub tokens : Tokens
tokens = record {
  pkcs11 = record module_with_key { to_string = λ b. "text" };
  exists_sync = λ path. true;
  get_key = λ pem. ok ec_key;
  calls_of = λ h. [];
}

get_ski_from_certificate-point_example :
    get_ski_from_certificate node tokens.get_key "pem"
    ≡ ok (node.sha256 (4 ∷ (1 ∷ 255 ∷ []) ++ 2 ∷ []))
get_ski_from_certificate-point_example =
    get_ski_from_certificate-point node tokens.get_key "pem" ec_key (1 ∷ 255 ∷ []) (2 ∷ [])
      (omega arith) (omega arith) (omega arith) refl refl

abbrev surroundings : Surroundings
surroundings = record {
  protos = protos;
  node = node;
  clients = clients;
  host = host;
  files = files;
  tokens = tokens;
  util = util;
  parse_arguments = λ json. ok [];
  parse_organizations = λ json. ok [];
  Json = String;
  parse = λ json. ok json;
  equal = λ a b. true;
  contains = λ text part. true;
  status = λ name. some 10;
  not_a_type = λ e. new_error "type";
  failed = Thrown.error (new_error "failed");
  undefined = Thrown.error (new_error "undefined");
  timed_out = Thrown.error (new_error "timed out");
  fuel = 5;
}

abbrev no_calls : HsmState
no_calls = record { has_hsm_signer_factory = false; calls = [] }

abbrev fresh : Suite
fresh = ((new_fabric, []), (new_world no_calls, []))

-- A user of a security module has a gateway that is connected; the last step fails.
abbrev steps : List ScenarioStep
steps =
    deployed_network
    ∷ created_gateway "first" "User1" "Org1MSP"
    ∷ created_hsm_gateway "second" "HSMUser" "Org1MSP"
    ∷ connect_gateway "peer0.org1.example.com"
    ∷ created_gateway "third" "User1" "Org9MSP"
    ∷ []

abbrev left : Suite
left = (run_steps surroundings steps (enter fresh)).1

made_run : left.1.0.contexts_made ≡ 2
unfolding run
made_run = refl

scenario-HasClosed_example :
    HasClosed (left.1.0.contexts 1) (scenario surroundings steps fresh).1.0.closed
unfolding run
scenario-HasClosed_example =
    scenario-HasClosed surroundings steps fresh (scenario surroundings steps fresh) 1
      ((refl, (refl, tt)), ((refl, tt), (tt, tt))) refl (omega arith)
