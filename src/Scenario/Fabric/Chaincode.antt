-- ===== src/Scenario/Fabric/Chaincode.antt =====
-- `deployChaincode` of scenario/node/src/fabric.ts.
use Prim.Native.String.{◌++◌}
use text.Mathlib.Text.{◌==◌}
use mathlib.Core.List.{◌++◌ as append}
use fabric_gateway.Base.{
  String, Option, none, some, List, [], ◌∷◌, Bool, true, false, if◌then◌else◌,
}
use fabric_gateway.Js.Object.{get, put}
use fabric_gateway.Effect.{ok, then_result, map_err, of_result, pure, gets, modify, ◌>>=◌, ◌>>◌}
use fabric_gateway.Effect.Whole.{for_each, discard}
use fabric_gateway.Errors.{Thrown, new_error}
use fabric_gateway.Scenario.Fabric.{
  Host, OrgInfo, Driver, Activity, orgs, docker_command, docker_command_with_tls, group,
  next_sequence, sleep,
}

-- The arguments of `deployChaincode`.
pub record Deployment : Type 0 where
  pub cc_type : String
  pub cc_name : String
  pub version : String
  pub channel_name : String
  pub signature_policy : String

unfoldable pub mangled_name : Deployment → String
mangled_name d = d.cc_name ++ d.version ++ d.channel_name

abbrev not_found : String → String → Thrown
not_found chaincode place =
    Thrown.error (new_error ("Chaincode " ++ chaincode ++ " not found on " ++ place ++ " peers"))

abbrev collections_file : Deployment → String
collections_file d = "chaincode/" ++ d.cc_type ++ "/" ++ d.cc_name ++ "/collections_config.json"

abbrev cc_package : Deployment → String
cc_package d = d.cc_name ++ ".tar.gz"

abbrev cc_label : Deployment → String
cc_label d = d.cc_name ++ "v" ++ d.version

abbrev cc_path : Deployment → String
cc_path d = "/opt/gopath/src/github.com/chaincode/" ++ d.cc_type ++ "/" ++ d.cc_name

-- What approving and committing have in common, from the channel to the wait.
abbrev definition_args : Deployment → String → List String
definition_args d sequence =
    "--channelID" ∷ d.channel_name ∷ "--name" ∷ d.cc_name ∷ "--version" ∷ d.version
    ∷ "--signature-policy" ∷ d.signature_policy ∷ "--sequence" ∷ sequence ∷ "--waitForEvent" ∷ []

abbrev pub approve_args : Deployment → String → List String → String → String → List String
approve_args d sequence collections cli package_id =
    append
      ("exec" ∷ cli ∷ "peer" ∷ "lifecycle" ∷ "chaincode" ∷ "approveformyorg" ∷ "--package-id"
        ∷ package_id ∷ [])
      (append (definition_args d sequence) collections)

abbrev pub commit_args : Deployment → String → List String → List String
commit_args d sequence collections =
    append ("exec" ∷ "org1_cli" ∷ "peer" ∷ "lifecycle" ∷ "chaincode" ∷ "commit" ∷ []) (
      append (definition_args d sequence) (
        append
          ("--peerAddresses" ∷ "peer0.org1.example.com:7051" ∷ "--peerAddresses"
            ∷ "peer0.org2.example.com:8051" ∷ "--tlsRootCertFiles"
            ∷ "/etc/hyperledger/configtx/crypto-config/peerOrganizations/org1.example.com/peers/peer0.org1.example.com/tls/ca.crt"
            ∷ "--tlsRootCertFiles"
            ∷ "/etc/hyperledger/configtx/crypto-config/peerOrganizations/org2.example.com/peers/peer0.org2.example.com/tls/ca.crt"
            ∷ [])
          collections))

module _ (host : Host) (d : Deployment) where
  -- The sequence number after the one that is committed.
  unfoldable pub query_sequence : Driver String
  query_sequence = do
    out ← docker_command_with_tls host (
        "exec" ∷ "org1_cli" ∷ "peer" ∷ "lifecycle" ∷ "chaincode" ∷ "querycommitted" ∷ "-o"
        ∷ "orderer.example.com:7050" ∷ "--channelID" ∷ d.channel_name ∷ "--name" ∷ d.cc_name ∷ [])
    of_result (
        then_result
          (then_result (map_err Thrown.error (host.match_text ".*Sequence: ([0-9]+),.*" out))
            (group (not_found d.cc_name "org1")))
          (λ committed. ok (next_sequence committed)))

  abbrev collections_args : Bool → List String
  collections_args true =
      "--collections-config"
      ∷ host.join ("/opt/gopath/src/github.com" ∷ collections_file d ∷ [])
      ∷ []
  collections_args false = []

  abbrev pub look_for_collections : Driver (List String)
  look_for_collections (f, l) =
      let file = host.join (host.fixtures_dir ∷ collections_file d ∷ []) in
      (ok (collections_args (host.exists_sync l file)), (f, Activity.looked_for file ∷ l))

  unfoldable pub install_on : OrgInfo → String → Driver (Unit {0})
  unfolding discard
  install_on org peer = discard (
      docker_command host (
        "exec"
        ∷ "-e"
        ∷ ("CORE_PEER_ADDRESS=" ++ peer)
        ∷ org.cli
        ∷ "peer"
        ∷ "lifecycle"
        ∷ "chaincode"
        ∷ "install"
        ∷ cc_package d
        ∷ []))

  unfoldable pub install : OrgInfo → Driver (Unit {0})
  unfolding install_on
  install org = do
    docker_command host (
        "exec"
        ∷ org.cli
        ∷ "peer"
        ∷ "lifecycle"
        ∷ "chaincode"
        ∷ "package"
        ∷ cc_package d
        ∷ "--lang"
        ∷ d.cc_type
        ∷ "--label"
        ∷ cc_label d
        ∷ "--path"
        ∷ cc_path d
        ∷ [])
    for_each (install_on org) org.peers

  unfoldable pub query_package : String × OrgInfo → Driver String
  query_package (org_name, org) = do
    out ←
        docker_command host
          ("exec" ∷ org.cli ∷ "peer" ∷ "lifecycle" ∷ "chaincode" ∷ "queryinstalled" ∷ [])
    of_result (
        then_result
          (map_err Thrown.error
            (host.match_text (".*Package ID: (.*), Label: " ++ cc_label d ++ ".*") out))
          (group (not_found (cc_label d) org_name)))

  unfoldable pub approve : Bool → String → List String → String × OrgInfo → Driver (Unit {0})
  unfolding discard
  approve exists sequence collections (org_name, org) = do
    if exists then pure tt else install org
    package_id ← query_package (org_name, org)
    discard (docker_command_with_tls host (approve_args d sequence collections org.cli package_id))

  unfoldable pub keep_policy : Driver (Unit {0})
  unfolding mangled_name
  keep_policy = do
    modify (λ s. (
      record (s.0) {
        running_chaincodes = put (mangled_name d) d.signature_policy s.0.running_chaincodes;
      },
      s.1,
    ))
    sleep 10000

  unfoldable pub define : Bool → String → Driver (Unit {0})
  unfolding approve
  define exists sequence = do
    collections ← look_for_collections
    for_each (approve exists sequence collections) orgs
    docker_command_with_tls host (commit_args d sequence collections)
    keep_policy

  -- By the policy that the chaincode runs under.
  abbrev pub deploy_over : Option String → Driver (Unit {0})
  deploy_over none = define false "1"
  deploy_over (some policy) =
      if policy == d.signature_policy then pure tt else query_sequence >>= define true

  unfoldable pub deploy_chaincode : Driver (Unit {0})
  unfolding mangled_name
  deploy_chaincode = gets (λ s. get (mangled_name d) s.0.running_chaincodes) >>= deploy_over
