-- ===== src/Tests/Network.antt =====
-- The theorems about the driver of the Fabric network, at concrete inputs.
use fabric_gateway.Base.{◌≡◌, ◌⊎◌, refl, String, some, List, [], ◌∷◌, true, false}
use fabric_gateway.Js.Object.{get}
use fabric_gateway.Effect.{ok}
use fabric_gateway.Errors.{new_error}
use fabric_gateway.Scenario.Fabric.{Host, Fabric, Log, new_fabric}
use fabric_gateway.Scenario.Fabric.Channels.{create_channels}
use fabric_gateway.Scenario.Fabric.Chaincode.{Deployment, deploy_chaincode}
use fabric_gateway.Scenario.Fabric.Deploying.{deploy_chaincode-again}
use fabric_gateway.Scenario.Fabric.Operations.{Operation, deploying, creating, stopping, after}
use fabric_gateway.Scenario.Fabric.Peers.{up_by, running_peers-up_by}
use fabric_gateway.Scenario.Fabric.Joins.{commands, with_joining}
use fabric_gateway.Scenario.Fabric.Joining.{create_channels-up}
use fabric_gateway.Tests.Run.{run}

-- A host on which every command prints something that matches.
abbrev pub host : Host
host = record {
  spawn_sync = λ l c. some "Sequence: 1, Package ID: a, Label: b";
  null_output = new_error "null";
  exec_file_sync = λ l c. ok "";
  exists_sync = λ l path. false;
  match_text = λ pattern text. ok (some (text ∷ "1" ∷ []));
  join = λ parts. "fixtures";
  fixtures_dir = "fixtures";
}

abbrev deployment : String → String → String → Deployment
deployment name version policy = record {
  cc_type = "node";
  cc_name = name;
  version = version;
  channel_name = "mychannel";
  signature_policy = policy;
}

abbrev deployed : Fabric × Log
deployed = (deploy_chaincode host (deployment "basic" "1.0" "any") (new_fabric, [])).1

deploy_run : (deploy_chaincode host (deployment "basic" "1.0" "all") deployed).0 ≡ ok tt
unfolding run
deploy_run = refl

deploy_chaincode-again_example :
    deploy_chaincode host (deployment "basic1" ".0" "any") deployed ≡ (ok tt, deployed)
unfolding run
deploy_chaincode-again_example =
    deploy_chaincode-again host (deployment "basic" "1.0" "any") (deployment "basic1" ".0" "any")
      (new_fabric, []) deployed refl refl refl

abbrev pub peer : String
peer = "peer1.org1.example.com"

abbrev operations : List Operation
operations = deploying ∷ creating ∷ stopping peer ∷ []

running_peers-up_by_example :
    get peer (after host operations (new_fabric, [])).0.running_peers
    ≡ up_by (after host operations (new_fabric, [])).1 peer
running_peers-up_by_example = running_peers-up_by host operations peer

stopped_run : up_by (after host operations (new_fabric, [])).1 peer ≡ some false
unfolding run
stopped_run = refl

abbrev stopping_one : List Operation
stopping_one = deploying ∷ stopping peer ∷ []

abbrev joined : Fabric × Log
joined = (create_channels host (after host stopping_one (new_fabric, []))).1

create_channels-up_example :
    (joined.0.channels_joined ≡ true)
    × (up_by joined.1 peer ≡ some true)
    × (((after host stopping_one (new_fabric, [])).0.channels_joined ≡ true)
        ⊎ ((earlier : List (List String)) × (commands joined.1 ≡ with_joining earlier)))
unfolding run
create_channels-up_example = create_channels-up host stopping_one peer joined refl refl
