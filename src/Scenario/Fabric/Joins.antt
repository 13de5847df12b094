-- ===== src/Scenario/Fabric/Joins.antt =====
-- The commands with which `createChannels` joins the channels (scenario/node/src/fabric.ts).
use mathlib.Core.List.{◌++◌ as append}
use Prim.Native.String.{◌++◌}
use fabric_gateway.Base.{
  ◌≡◌, refl, sym, ap, subst, String, Option, none, some, Bool, true, false, List, [], ◌∷◌, ◌⊎◌, inl,
  inr,
}
use fabric_gateway.Effect.{Result, ok}
use fabric_gateway.Errors.{Thrown}
use fabric_gateway.Effect.Whole.{
  for_each, Preserves, Preserves->>=, Preserves-for_each, Leads, Leads->>=, Leads-end,
  Leads-discard, Leads-keep,
}
use fabric_gateway.Scenario.Fabric.{
  Host, Fabric, Log, OrgInfo, Command, spawned, executed, looked_for, slept, output_text,
  tls_options, docker_command, docker_command_with_tls, orgs, start_one, start_listed,
  start_all_peers, stopped_peers,
}
use fabric_gateway.Scenario.Fabric.Channels.{
  create_channel, join_peer, join_org, keep_joined, join_channels, unless_joined, create_channels,
}

-- The arguments of the commands that were spawned and printed something, the latest first.
abbrev pub commands : Log → List (List String)
commands [] = []
commands (spawned c none ∷ l) = commands l
commands (spawned c (some out) ∷ l) = c.args ∷ commands l
commands (executed c ∷ l) = commands l
commands (looked_for file ∷ l) = commands l
commands (slept ms ∷ l) = commands l

abbrev pub create : List String
create =
    append
      ("exec" ∷ "org1_cli" ∷ "peer" ∷ "channel" ∷ "create" ∷ "-o" ∷ "orderer.example.com:7050"
        ∷ "-c" ∷ "mychannel" ∷ "-f" ∷ "/etc/hyperledger/configtx/channel.tx" ∷ "--outputBlock"
        ∷ "/etc/hyperledger/configtx/mychannel.block" ∷ [])
      tls_options

-- The command in the container `cli` that joins a peer, by the setting of its address.
abbrev pub join : String → String → List String
join cli address =
    append
      ("exec" ∷ "-e" ∷ address ∷ cli ∷ "peer" ∷ "channel" ∷ "join" ∷ "-b"
        ∷ "/etc/hyperledger/configtx/mychannel.block" ∷ [])
      tls_options

abbrev pub update : String → String → List String
update cli anchors =
    append
      ("exec" ∷ cli ∷ "peer" ∷ "channel" ∷ "update" ∷ "-o" ∷ "orderer.example.com:7050" ∷ "-c"
        ∷ "mychannel" ∷ "-f" ∷ anchors ∷ [])
      tls_options

-- What joining the channels takes, before all earlier commands: the channel is created, the five peers
-- are joined, and the anchor peers of each organization are set once its peers are joined.
abbrev pub with_joining : List (List String) → List (List String)
with_joining earlier =
    update "org3_cli" "/etc/hyperledger/configtx/Org3MSPanchors.tx"
    ∷ join "org3_cli" "CORE_PEER_ADDRESS=peer0.org3.example.com:11051"
    ∷ update "org2_cli" "/etc/hyperledger/configtx/Org2MSPanchors.tx"
    ∷ join "org2_cli" "CORE_PEER_ADDRESS=peer1.org2.example.com:10051"
    ∷ join "org2_cli" "CORE_PEER_ADDRESS=peer0.org2.example.com:8051"
    ∷ update "org1_cli" "/etc/hyperledger/configtx/Org1MSPanchors.tx"
    ∷ join "org1_cli" "CORE_PEER_ADDRESS=peer1.org1.example.com:9051"
    ∷ join "org1_cli" "CORE_PEER_ADDRESS=peer0.org1.example.com:7051"
    ∷ create
    ∷ earlier

-- The commands so far.
abbrev Had : List (List String) → Fabric × Log → Type 0
Had l s = commands s.1 ≡ l

abbrev after_peers : OrgInfo → List String → List (List String) → List (List String)
after_peers org [] l = l
after_peers org (peer ∷ peers) l =
    after_peers org peers (join org.cli ("CORE_PEER_ADDRESS=" ++ peer) ∷ l)

abbrev after_orgs : List (String × OrgInfo) → List (List String) → List (List String)
after_orgs [] l = l
after_orgs ((name, org) ∷ others) l =
    after_orgs others (update org.cli org.anchortx ∷ after_peers org org.peers l)

module _ (host : Host) where
  spawned-Had :
      (c : Command) (out : Option String) (s s' : Fabric × Log) (a : String)
      (l : List (List String))
      → Had l s
      → (let y : Result Thrown String × (Fabric × Log) =
            (output_text host out, (s.0, spawned c out ∷ s.1)) in
          y ≡ (ok a, s'))
      → Had (c.args ∷ l) s'
  spawned-Had c none s s' a l h e = cc
  spawned-Had c (some out) s s' a l h e =
      subst (Had (c.args ∷ l)) (ap (λ y. y.1) e) (ap (λ k. c.args ∷ k) h)

  docker-Leads :
      (args : List String) (l : List (List String))
      → Leads (Had l) (Had (append args tls_options ∷ l)) (docker_command_with_tls host args)
  unfolding docker_command_with_tls docker_command
  docker-Leads args l = record { at = λ s h a s' e. spawned-Had _ _ s s' a l h e }

  join_peer-Leads :
      (org : OrgInfo) (peer : String) (l : List (List String))
      → Leads
          (Had l)
          (Had (join org.cli ("CORE_PEER_ADDRESS=" ++ peer) ∷ l))
          (join_peer host org peer)
  unfolding join_peer
  join_peer-Leads org peer l = Leads-discard (docker-Leads _ l)

  join_peers-Leads :
      (org : OrgInfo) (peers : List String) (l : List (List String))
      → Leads (Had l) (Had (after_peers org peers l)) (for_each (join_peer host org) peers)
  join_peers-Leads org [] l = Leads-end λ s h. h
  join_peers-Leads org (peer ∷ peers) l =
      Leads->>= (join_peer-Leads org peer l) λ _. join_peers-Leads org peers _

  join_orgs-Leads :
      (all : List (String × OrgInfo)) (l : List (List String))
      → Leads (Had l) (Had (after_orgs all l)) (for_each (join_org host) all)
  unfolding join_org
  join_orgs-Leads [] l = Leads-end λ s h. h
  join_orgs-Leads ((name, org) ∷ others) l =
      Leads->>= (Leads->>= (join_peers-Leads org org.peers l) λ _. Leads-discard (docker-Leads _ _))
        λ _. join_orgs-Leads others _

  -- Where joining the channels returns, its commands are the latest, all of them and in order.
  join_channels-Leads :
      (earlier : List (List String))
      → Leads (Had earlier) (Had (with_joining earlier)) (join_channels host)
  unfolding join_channels create_channel keep_joined
  join_channels-Leads earlier = Leads->>= (docker-Leads _ earlier) λ out.
      Leads->>= {Q = Had (with_joining earlier)} (join_orgs-Leads orgs (create ∷ earlier))
        λ _. Leads-end λ s h. h

module _ (host : Host) (b : Bool) where
  -- The record says so of the channels.
  abbrev pub Says : Fabric × Log → Type 0
  Says s = s.0.channels_joined ≡ b

  start_one-Says : (peer : String) → Preserves Says (start_one host peer)
  unfolding docker_command
  start_one-Says peer =
      Preserves->>= {m = docker_command host ("start" ∷ peer ∷ [])} (record { at = λ s h. h })
        λ out. record { at = λ s h. h }

  start_listed-Says : (peers : List String) → Preserves Says (start_listed host peers)
  start_listed-Says [] = record { at = λ s h. h }
  start_listed-Says (q ∷ ps) =
      Preserves->>= (Preserves-for_each (start_one host) (q ∷ ps) start_one-Says)
        λ _. record { at = λ s h. h }

  start_all_peers-Says : Preserves Says (start_all_peers host)
  unfolding start_all_peers
  start_all_peers-Says = record {
    at = λ s h. (start_listed-Says (stopped_peers s.0.running_peers)).at s h;
  }

  -- The channels are said to be joined, or the latest commands have joined them.
  abbrev pub HasJoined : Fabric × Log → Type 0
  HasJoined s =
      (b ≡ true) ⊎ ((earlier : List (List String)) × (commands s.1 ≡ with_joining earlier))

  unless_joined-HasJoined :
      (joined : Bool) (s s' : Fabric × Log)
      → joined ≡ b
      → unless_joined host joined s ≡ (ok tt, s')
      → HasJoined s'
  unless_joined-HasJoined true s s' e r = inl (sym e)
  unless_joined-HasJoined false s s' e r =
      inr (commands s.1, (join_channels-Leads host (commands s.1)).at s refl tt s' r)

  pub create_channels-HasJoined : Leads Says HasJoined (create_channels host)
  unfolding create_channels
  create_channels-HasJoined =
      Leads->>= {Q = Says} (Leads-keep start_all_peers-Says)
        λ _. record { at = λ s h a s'. unless_joined-HasJoined s.0.channels_joined s s' h }
