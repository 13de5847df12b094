-- ===== src/Scenario/Fabric/Quiet.antt =====
-- The steps that neither stop nor start a peer.
use text.Mathlib.Text.{◌==◌}
use mathlib.Core.List.{◌++◌ as append}
use fabric_gateway.Base.{
  ◌≡◌, refl, String, Option, none, some, Bool, true, false, List, [], ◌∷◌, if◌then◌else◌,
  Bool-cases, inl, inr,
}
use fabric_gateway.Js.Object.{Object, get}
use fabric_gateway.Effect.{pure}
use fabric_gateway.Effect.Whole.{
  Preserves, Preserves->>=, Preserves-of_result, Preserves-for_each, Preserves-discard,
}
use fabric_gateway.Scenario.Fabric.{
  Host, Fabric, Log, OrgInfo, Command, Activity, spawned, executed, looked_for, slept, spawn,
  exec_file, docker_command, docker_command_with_tls, tls_options, docker_down, keep_running,
  start_network, deploy_network, generate_hsm_user, orgs,
}
use fabric_gateway.Scenario.Fabric.Channels.{
  create_channel, join_peer, join_org, keep_joined, join_channels,
}
use fabric_gateway.Scenario.Fabric.Chaincode.{
  Deployment, mangled_name, deploy_chaincode, query_sequence, look_for_collections, install_on,
  install, query_package, approve, commit_args, define, keep_policy, deploy_over,
}

-- The container that a `docker` command stops or starts.
abbrev pub change_of : List String → Option (String × Bool)
change_of [] = none
change_of (verb ∷ []) = none
change_of (verb ∷ peer ∷ []) =
    if verb == "stop"
    then some (peer, false)
    else if verb == "start"
    then some (peer, true)
    else none
change_of (verb ∷ peer ∷ more ∷ rest) = none

abbrev pub changes : Command → Option (String × Bool)
changes c = if c.file == "docker" then change_of c.args else none

abbrev pub IsQuiet : Activity → Type 0
IsQuiet (spawned c o) = changes c ≡ none
IsQuiet (executed c) = Unit
IsQuiet (looked_for file) = Unit
IsQuiet (slept ms) = Unit

-- A property that does not ask for more than what becomes of the peers.
pub record IsAboutPeers (P : Fabric × Log → Type 0) : Type 0 where
  pub logs : (s : Fabric × Log) (a : Activity) → IsQuiet a → P s → P (s.0, a ∷ s.1)
  pub sets :
      (s : Fabric × Log) (running joined : Bool) (chaincodes : Object String)
      → P s
      → P (
        record (s.0) {
          fabric_running = running;
          channels_joined = joined;
          running_chaincodes = chaincodes;
        },
        s.1,
      )

module _ (host : Host) {P : Fabric × Log → Type 0} (about : IsAboutPeers P) where
  spawn-keeps : (c : Command) → changes c ≡ none → Preserves P (spawn host c)
  spawn-keeps c e = record { at = λ s p. about.logs s (spawned c (host.spawn_sync s.1 c)) e p }

  docker_command-keeps :
      (args : List String) → change_of args ≡ none → Preserves P (docker_command host args)
  unfolding docker_command
  docker_command-keeps args e = spawn-keeps _ e

  tls-keeps :
      (args : List String)
      → change_of (append args tls_options) ≡ none
      → Preserves P (docker_command_with_tls host args)
  unfolding docker_command_with_tls
  tls-keeps args e = docker_command-keeps (append args tls_options) e

  exec_file-keeps : (file : String) (args : List String) → Preserves P (exec_file host file args)
  exec_file-keeps file args = record { at = λ s p. about.logs s (executed _) tt p }

  pub docker_down-keeps : Preserves P (docker_down host)
  unfolding docker_down
  docker_down-keeps = Preserves-discard (spawn-keeps _ refl)

  pub generate_hsm_user-keeps : (user : String) → Preserves P (generate_hsm_user host user)
  unfolding generate_hsm_user
  generate_hsm_user-keeps user = Preserves-discard (exec_file-keeps _ _)

  keep_running-keeps : Preserves P (keep_running host)
  unfolding keep_running
  keep_running-keeps = record {
    at = λ s p.
        about.logs _ (slept 20000) tt
          (about.sets s true s.0.channels_joined s.0.running_chaincodes p);
  }

  start_network-keeps : Preserves P (start_network host)
  unfolding start_network
  start_network-keeps =
      Preserves->>= (exec_file-keeps "./generate.sh" [])
        λ _. Preserves->>= (spawn-keeps _ refl) λ _. keep_running-keeps

  pub deploy_network-keeps : Preserves P (deploy_network host)
  unfolding deploy_network
  deploy_network-keeps = record {
    at = λ s p. elim (Bool-cases s.0.fabric_running) [
      | inl e ↦ simp e p
      | inr e ↦ simp e (start_network-keeps.at s p)
    ];
  }

  join_org-keeps : (org : String × OrgInfo) → Preserves P (join_org host org)
  unfolding join_org join_peer
  join_org-keeps (name, org) =
      Preserves->>=
        (Preserves-for_each (join_peer host org) org.peers
          (λ peer. Preserves-discard (tls-keeps _ refl)))
        λ _. Preserves-discard (tls-keeps _ refl)

  keep_joined-keeps : Preserves P (keep_joined host)
  unfolding keep_joined
  keep_joined-keeps = record {
    at = λ s p.
        about.logs _ (slept 10000) tt
          (about.sets s s.0.fabric_running true s.0.running_chaincodes p);
  }

  pub join_channels-keeps : Preserves P (join_channels host)
  unfolding join_channels create_channel
  join_channels-keeps = Preserves->>= (tls-keeps _ refl) λ _.
      Preserves->>= (Preserves-for_each (join_org host) orgs join_org-keeps) λ _. keep_joined-keeps

  module _ (d : Deployment) where
    install-keeps : (org : OrgInfo) → Preserves P (install host d org)
    unfolding install install_on
    install-keeps org = Preserves->>= (docker_command-keeps _ refl) λ _.
        Preserves-for_each (install_on host d org) org.peers
          (λ peer. Preserves-discard (docker_command-keeps _ refl))

    query_package-keeps : (org : String × OrgInfo) → Preserves P (query_package host d org)
    unfolding query_package
    query_package-keeps (name, org) =
        Preserves->>= (docker_command-keeps _ refl) λ out. Preserves-of_result _

    install_unless-keeps :
        (exists : Bool) (org : OrgInfo)
        → Preserves P (if exists then pure tt else install host d org)
    install_unless-keeps true org = record { at = λ s p. p }
    install_unless-keeps false org = install-keeps org

    approve-keeps :
        (exists : Bool) (sequence : String) (collections : List String) (org : String × OrgInfo)
        → Preserves P (approve host d exists sequence collections org)
    unfolding approve
    approve-keeps exists sequence collections (name, org) =
        Preserves->>= (install_unless-keeps exists org) λ _.
          Preserves->>= (query_package-keeps (name, org))
            λ package_id. Preserves-discard (tls-keeps _ refl)

    keep_policy-keeps : Preserves P (keep_policy host d)
    unfolding keep_policy
    keep_policy-keeps = record {
      at = λ s p.
          about.logs _ (slept 10000) tt (about.sets s s.0.fabric_running s.0.channels_joined _ p);
    }

    define-keeps : (exists : Bool) (sequence : String) → Preserves P (define host d exists sequence)
    unfolding define
    define-keeps exists sequence = Preserves->>= look_for_collections-keeps λ collections.
        Preserves->>=
          (Preserves-for_each (approve host d exists sequence collections) orgs
            (approve-keeps exists sequence collections))
          λ _.
            Preserves->>= (tls-keeps (commit_args d sequence collections) refl)
              λ _. keep_policy-keeps
      where
        look_for_collections-keeps : Preserves P (look_for_collections host d)
        look_for_collections-keeps = record { at = λ s p. about.logs s (looked_for _) tt p }

    query_sequence-keeps : Preserves P (query_sequence host d)
    unfolding query_sequence
    query_sequence-keeps = Preserves->>= (tls-keeps _ refl) λ out. Preserves-of_result _

    deploy_over-keeps : (policy : Option String) → Preserves P (deploy_over host d policy)
    deploy_over-keeps none = define-keeps false "1"
    deploy_over-keeps (some policy) = record {
      at = λ s p. elim (Bool-cases (policy == d.signature_policy)) [
        | inl e ↦ rw e p
        | inr e ↦ rw e (
            (Preserves->>= {f = define host d true} query_sequence-keeps (define-keeps true)).at s
              p)
      ];
    }

    pub deploy_chaincode-keeps : Preserves P (deploy_chaincode host d)
    unfolding deploy_chaincode
    deploy_chaincode-keeps = record {
      at = λ s p. (deploy_over-keeps (get (mangled_name d) s.0.running_chaincodes)).at s p;
    }
