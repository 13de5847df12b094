-- ===== src/Scenario/Fabric/Peers.antt =====
-- The record of running peers, against the commands that were run.
use text.Mathlib.Text.{◌==◌}
use fabric_gateway.Base.{
  ◌≡◌, refl, sym, ap, ◌∙◌, String, Option, none, some, Bool, true, false, List, [], ◌∷◌,
  if◌then◌else◌, Bool-cases, inl, inr,
}
use fabric_gateway.Js.Object.{get, get-put}
use fabric_gateway.Effect.{continue_with, modify}
use fabric_gateway.Effect.Whole.{Preserves, Preserves->>=, Preserves-for_each}
use fabric_gateway.Scenario.Fabric.{
  Host, Fabric, Log, Command, Activity, spawned, executed, looked_for, slept, initial_peers,
  set_running, output_text, docker_command, stop_peer, start_peer, start_one, start_listed,
  start_all_peers, stopped_peers, new_fabric,
}
use fabric_gateway.Scenario.Fabric.Channels.{create_channels}
use fabric_gateway.Scenario.Fabric.Operations.{
  Operation, down, deploying, creating, generating, stopping, starting, deploying_chaincode,
  operate, after,
}
use fabric_gateway.Scenario.Fabric.Quiet.{
  changes, IsQuiet, IsAboutPeers, docker_down-keeps, deploy_network-keeps, generate_hsm_user-keeps,
  deploy_chaincode-keeps, join_channels-keeps,
}

abbrev pub changed : Option (String × Bool) → String → Option Bool → Option Bool
changed none p before = before
changed (some (peer, b)) p before = if peer == p then some b else before

-- What a log says of a peer: whether the last command that was spawned for it started it. The network
-- comes up with the peers of all organizations.
abbrev pub up_by : Log → String → Option Bool
up_by [] p = get p initial_peers
up_by (spawned c none ∷ l) p = up_by l p
up_by (spawned c (some out) ∷ l) p = changed (changes c) p (up_by l p)
up_by (executed c ∷ l) p = up_by l p
up_by (looked_for file ∷ l) p = up_by l p
up_by (slept ms ∷ l) p = up_by l p

abbrev pub Agrees : Fabric × Log → Type 0
Agrees s = (p : String) → get p s.0.running_peers ≡ up_by s.1 p

up_by-quiet : (a : Activity) (l : Log) (p : String) → IsQuiet a → up_by (a ∷ l) p ≡ up_by l p
up_by-quiet (spawned c none) l p e = refl
up_by-quiet (spawned c (some out)) l p e = rw e
up_by-quiet (executed c) l p e = refl
up_by-quiet (looked_for file) l p e = refl
up_by-quiet (slept ms) l p e = refl

Agrees-IsAboutPeers : IsAboutPeers Agrees
Agrees-IsAboutPeers = record {
  logs = λ s a quiet agrees p. agrees p ∙ sym (up_by-quiet a s.1 p quiet);
  sets = λ s running joined chaincodes agrees. agrees;
}

module _ (host : Host) where
  -- A peer is stopped or started, and recorded so if the command could be spawned.
  set_after :
      (c : Command) (peer : String) (b : Bool) (o : Option String) (s : Fabric × Log)
      → changes c ≡ some (peer, b)
      → Agrees s
      → Agrees
          (continue_with
            (λ (out : String). modify (set_running peer b))
            (output_text host o, (s.0, spawned c o ∷ s.1))).1
  set_after c peer b none s e agrees = agrees
  set_after c peer b (some out) s e agrees = λ p.
      rw e
        (get-put peer p b s.0.running_peers ∙ ap (λ v. if peer == p then some b else v) (agrees p))

  stop_peer-Agrees : (peer : String) → Preserves Agrees (stop_peer host peer)
  unfolding stop_peer docker_command
  stop_peer-Agrees peer = record {
    at = λ s agrees. set_after _ peer false (host.spawn_sync s.1 _) s refl agrees;
  }

  start_one-Agrees : (peer : String) → Preserves Agrees (start_one host peer)
  unfolding docker_command
  start_one-Agrees peer = record {
    at = λ s agrees. set_after _ peer true (host.spawn_sync s.1 _) s refl agrees;
  }

  start_listed-Agrees : (ps : List String) → Preserves Agrees (start_listed host ps)
  start_listed-Agrees [] = record { at = λ s agrees. agrees }
  start_listed-Agrees (p ∷ ps) =
      Preserves->>= (Preserves-for_each (start_one host) (p ∷ ps) start_one-Agrees)
        λ _. record { at = λ s agrees. agrees }

  start_all_peers-Agrees : Preserves Agrees (start_all_peers host)
  unfolding start_all_peers
  start_all_peers-Agrees = record {
    at = λ s agrees. (start_listed-Agrees (stopped_peers s.0.running_peers)).at s agrees;
  }

  pub create_channels-Agrees : Preserves Agrees (create_channels host)
  unfolding create_channels
  create_channels-Agrees = Preserves->>= start_all_peers-Agrees λ _. record {
    at = λ s agrees. elim (Bool-cases s.0.channels_joined) [
      | inl e ↦ simp e agrees
      | inr e ↦ simp e ((join_channels-keeps host Agrees-IsAboutPeers).at s agrees)
    ];
  }

  start_peer-Agrees : (peer : String) → Preserves Agrees (start_peer host peer)
  unfolding start_peer
  start_peer-Agrees peer =
      Preserves->>= (start_one-Agrees peer) λ _. record { at = λ s agrees. agrees }

  operate-Agrees : (o : Operation) → Preserves Agrees (operate host o)
  operate-Agrees down = docker_down-keeps host Agrees-IsAboutPeers
  operate-Agrees deploying = deploy_network-keeps host Agrees-IsAboutPeers
  operate-Agrees creating = create_channels-Agrees
  operate-Agrees (generating user) = generate_hsm_user-keeps host Agrees-IsAboutPeers user
  operate-Agrees (stopping peer) = stop_peer-Agrees peer
  operate-Agrees (starting peer) = start_peer-Agrees peer
  operate-Agrees (deploying_chaincode d) = deploy_chaincode-keeps host Agrees-IsAboutPeers d

  pub after-Agrees : (os : List Operation) (s : Fabric × Log) → Agrees s → Agrees (after host os s)
  after-Agrees [] s agrees = agrees
  after-Agrees (o ∷ os) s agrees =
      after-Agrees os (operate host o s).1 ((operate-Agrees o).at s agrees)

-- Whatever is asked of the driver, in any order and with any failures, its record has of every peer
-- what the last command says that was spawned to stop or start it.
pub running_peers-up_by :
    (host : Host) (os : List Operation) (peer : String)
    → let (f, l) = after host os (new_fabric, []) in get peer f.running_peers ≡ up_by l peer
unfolding new_fabric
running_peers-up_by host os peer = after-Agrees host os (new_fabric, []) (λ p. refl) peer
