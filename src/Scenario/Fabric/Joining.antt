-- ===== src/Scenario/Fabric/Joining.antt =====
-- What `createChannels` leaves behind.
use text.Mathlib.Text.{◌==◌}
use text.Mathlib.TextEquality.{eq_iff}
use fabric_gateway.Base.{
  ◌≡◌, refl, sym, ap, ◌∙◌, subst, String, Option, none, some, Bool, true, false, not, List, [], ◌∷◌,
  arith, if◌then◌else◌, ◌⊎◌, inl, inr, Bool-cases,
}
use fabric_gateway.Js.Object.{Object, get, put, get-put}
use fabric_gateway.Effect.{ok}
use fabric_gateway.Effect.Whole.{
  for_each, Preserves, Ensures, Ensures->>=, Ensures-end, Leads, Leads->>=, Leads-end, Leads-keep,
}
use fabric_gateway.Scenario.Fabric.{
  Host, Fabric, Log, spawned, executed, looked_for, slept, keys, filter, is_truthy, initial_peers,
  stopped_peers, docker_command, start_one, start_listed, start_all_peers, new_fabric, orgs,
}
use fabric_gateway.Scenario.Fabric.Channels.{
  create_channel, join_org, create_channels, unless_joined, join_channels, keep_joined,
}
use fabric_gateway.Scenario.Fabric.Joins.{commands, with_joining, create_channels-HasJoined}
use fabric_gateway.Scenario.Fabric.Operations.{Operation, after}
use fabric_gateway.Scenario.Fabric.Quiet.{changes, IsAboutPeers, join_channels-keeps}
use fabric_gateway.Scenario.Fabric.Peers.{
  up_by, Agrees, changed, create_channels-Agrees, after-Agrees,
}

abbrev IsIn : String → List String → Type 0
IsIn p [] = ⊥
IsIn p (q ∷ ps) = (q == p ≡ true) ⊎ IsIn p ps

-- Every stopped peer of the record is in a list.
abbrev StoppedIn : List String → Fabric × Log → Type 0
StoppedIn ps s = (p : String) → get p s.0.running_peers ≡ some false → IsIn p ps

get-keys : (p : String) (b : Bool) (o : Object Bool) → get p o ≡ some b → IsIn p (keys o)
unfolding get
get-keys p b [] e = cc
get-keys p b ((q, w) ∷ o) e = elim (Bool-cases (q == p)) [
  | inl same ↦ inl same
  | inr other ↦ inr (get-keys p b o (rw other at e))
]

IsIn-filter :
    (test : String → Bool) (p : String) (ps : List String)
    → IsIn p ps
    → test p ≡ true
    → IsIn p (filter test ps)
IsIn-filter test p [] i e = i
IsIn-filter test p (q ∷ ps) (inl same) e =
    let q-test : test q ≡ true = ap test (ground (arith, same, eq_iff q p)) ∙ e in
    rw q-test (inl same)
IsIn-filter test p (q ∷ ps) (inr i) e = elim (Bool-cases (test q)) [
  | inl t ↦ rw t (inr (IsIn-filter test p ps i e))
  | inr f ↦ rw f (IsIn-filter test p ps i e)
]

StoppedIn-put :
    (q : String) (ps : List String) (o : Object Bool)
    → ((p : String) → get p o ≡ some false → IsIn p (q ∷ ps))
    → (p : String) → get p (put q true o) ≡ some false
    → IsIn p ps
StoppedIn-put q ps o h p e =
    let e' : (if q == p then some true else get p o) ≡ some false = sym (get-put q p true o) ∙ e in
    elim (Bool-cases (q == p)) [
      | inl same ↦ cc (rw same at e')
      | inr other ↦ elim (h p (rw other at e')) [ inl same ↦ cc | inr i ↦ i ]
    ]

module _ (host : Host) where
  docker_command-StoppedIn :
      (ps args : List String) → Preserves (StoppedIn ps) (docker_command host args)
  unfolding docker_command
  docker_command-StoppedIn ps args = record { at = λ s h. h }

  start_one-StoppedIn :
      (q : String) (ps : List String) → Leads (StoppedIn (q ∷ ps)) (StoppedIn ps) (start_one host q)
  start_one-StoppedIn q ps =
      Leads->>= {Q = StoppedIn (q ∷ ps)}
        (Leads-keep (docker_command-StoppedIn (q ∷ ps) ("start" ∷ q ∷ [])))
        λ out. Leads-end λ s h. StoppedIn-put q ps s.0.running_peers h

  start_each-StoppedIn :
      (ps : List String) → Leads (StoppedIn ps) (StoppedIn []) (for_each (start_one host) ps)
  start_each-StoppedIn [] = Leads-end λ s h. h
  start_each-StoppedIn (q ∷ ps) = Leads->>= (start_one-StoppedIn q ps) λ _. start_each-StoppedIn ps

  start_listed-StoppedIn :
      (ps : List String) → Leads (StoppedIn ps) (StoppedIn []) (start_listed host ps)
  start_listed-StoppedIn [] = Leads-end λ s h. h
  start_listed-StoppedIn (q ∷ ps) =
      Leads->>= (start_each-StoppedIn (q ∷ ps)) λ _. Leads-end λ s h. h

  stopped_peers-StoppedIn : (s : Fabric × Log) → StoppedIn (stopped_peers s.0.running_peers) s
  stopped_peers-StoppedIn s p e =
      IsIn-filter _ p (keys s.0.running_peers) (get-keys p false s.0.running_peers e)
        (ap (λ v. not (is_truthy v)) e)

  start_all_peers-StoppedIn :
      (s s' : Fabric × Log) → start_all_peers host s ≡ (ok tt, s') → StoppedIn [] s'
  unfolding start_all_peers
  start_all_peers-StoppedIn s s' e =
      (start_listed-StoppedIn (stopped_peers s.0.running_peers)).at s (stopped_peers-StoppedIn s) tt
        s' e

  keep_joined-joined : Ensures (λ s. s.0.channels_joined ≡ true) (keep_joined host)
  unfolding keep_joined
  keep_joined-joined = Ensures-end λ s. refl

  join_channels-joined : Ensures (λ s. s.0.channels_joined ≡ true) (join_channels host)
  unfolding join_channels
  join_channels-joined = Ensures->>= (create_channel host) λ out.
      Ensures->>= (for_each (join_org host) orgs) {f = λ _. keep_joined host}
        λ _. keep_joined-joined

  StoppedIn-IsAboutPeers : IsAboutPeers (StoppedIn [])
  StoppedIn-IsAboutPeers = record {
    logs = λ s a quiet h. h;
    sets = λ s running joined chaincodes h. h;
  }

  -- The two outcomes of joining the channels, once all peers run.
  abbrev IsJoined : Fabric × Log → Type 0
  IsJoined s = StoppedIn [] s × (s.0.channels_joined ≡ true)

  unless_joined-IsJoined :
      (joined : Bool) (s s' : Fabric × Log)
      → s.0.channels_joined ≡ joined
      → StoppedIn [] s
      → unless_joined host joined s ≡ (ok tt, s')
      → IsJoined s'
  unless_joined-IsJoined true s s' e h r = subst IsJoined (ap (λ y. y.1) r) (h, e)
  unless_joined-IsJoined false s s' e h r = (
    (Leads-keep (join_channels-keeps host StoppedIn-IsAboutPeers)).at s h tt s' r,
    join_channels-joined.at s tt s' r,
  )

  create_channels-Leads : Leads (λ _. Unit {0}) IsJoined (create_channels host)
  unfolding create_channels
  create_channels-Leads =
      Leads->>= {Q = StoppedIn []} {m = start_all_peers host}
        (record { at = λ s p a s'. start_all_peers-StoppedIn s s' })
        λ _. record { at = λ s h a s'. unless_joined-IsJoined s.0.channels_joined s s' refl h }

  create_channels-IsJoined :
      (s s' : Fabric × Log) → create_channels host s ≡ (ok tt, s') → IsJoined s'
  create_channels-IsJoined s s' r = create_channels-Leads.at s tt tt s' r

changed-known :
    (change : Option (String × Bool)) (p : String) (before : Option Bool)
    → (b : Bool) × (before ≡ some b)
    → (b : Bool) × (changed change p before ≡ some b)
changed-known none p before k = k
changed-known (some (q, b)) p before k = elim (Bool-cases (q == p)) [
  | inl e ↦ (b, rw e)
  | inr e ↦ rw e k
]

-- A log knows of a peer that the network came up with.
up_by-known :
    (l : Log) (peer : String)
    → get peer initial_peers ≡ some true
    → (b : Bool) × (up_by l peer ≡ some b)
up_by-known [] peer e = (true, e)
up_by-known (spawned c none ∷ l) peer e = up_by-known l peer e
up_by-known (spawned c (some out) ∷ l) peer e =
    changed-known (changes c) peer (up_by l peer) (up_by-known l peer e)
up_by-known (executed c ∷ l) peer e = up_by-known l peer e
up_by-known (looked_for file ∷ l) peer e = up_by-known l peer e
up_by-known (slept ms ∷ l) peer e = up_by-known l peer e

true_unless_false :
    (v : Option Bool) → (b : Bool) × (v ≡ some b) → (v ≡ some false → ⊥) → v ≡ some true
true_unless_false v (true, e) h = e
true_unless_false v (false, e) h = elim (h e) [ ]

-- Where creating the channels returns, whatever was asked of the driver before, its record says that the
-- channels are joined, and of each peer that the network came up with, no command or the last one is to
-- start it. If the record did not say so before, the latest commands, which all came back with an
-- output, create the channel, join the five peers and update the anchor peers of the three
-- organizations, in order.
pub create_channels-up :
    (host : Host) (os : List Operation) (peer : String) (s : Fabric × Log)
    → create_channels host (after host os (new_fabric, [])) ≡ (ok tt, s)
    → get peer initial_peers ≡ some true
    → (s.0.channels_joined ≡ true)
      × (up_by s.1 peer ≡ some true)
      × (((after host os (new_fabric, [])).0.channels_joined ≡ true)
          ⊎ ((earlier : List (List String)) × (commands s.1 ≡ with_joining earlier)))
unfolding new_fabric
create_channels-up host os peer s r known =
    let start = after host os (new_fabric, []) in
    let (stopped, joined) = create_channels-IsJoined host start s r in
    let agrees : Agrees s =
      (Leads-keep (create_channels-Agrees host)).at start
        (after-Agrees host os (new_fabric, []) (λ p. refl)) tt s r in
    (
      joined,
      true_unless_false (up_by s.1 peer) (up_by-known s.1 peer known)
          (λ e. stopped peer (agrees peer ∙ e)),
      (create_channels-HasJoined host start.0.channels_joined).at start refl tt s r,
    )
