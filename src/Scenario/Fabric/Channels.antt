-- ===== src/Scenario/Fabric/Channels.antt =====
-- `createChannels` of scenario/node/src/fabric.ts.
use Prim.Native.String.{◌++◌}
use fabric_gateway.Base.{String, [], ◌∷◌, Bool, true, if◌then◌else◌}
use fabric_gateway.Effect.{pure, gets, modify, ◌>>=◌, ◌>>◌}
use fabric_gateway.Effect.Whole.{for_each, discard}
use fabric_gateway.Scenario.Fabric.{
  Host, OrgInfo, Driver, orgs, docker_command_with_tls, start_all_peers, sleep,
}

module _ (host : Host) where
  unfoldable pub join_peer : OrgInfo → String → Driver (Unit {0})
  unfolding discard
  join_peer org peer = discard (
      docker_command_with_tls host (
        "exec"
        ∷ "-e"
        ∷ ("CORE_PEER_ADDRESS=" ++ peer)
        ∷ org.cli
        ∷ "peer"
        ∷ "channel"
        ∷ "join"
        ∷ "-b"
        ∷ "/etc/hyperledger/configtx/mychannel.block"
        ∷ []))

  unfoldable pub join_org : String × OrgInfo → Driver (Unit {0})
  unfolding join_peer
  join_org (name, org) = do
    for_each (join_peer org) org.peers
    discard (
        docker_command_with_tls host (
          "exec" ∷ org.cli ∷ "peer" ∷ "channel" ∷ "update" ∷ "-o" ∷ "orderer.example.com:7050"
          ∷ "-c" ∷ "mychannel" ∷ "-f" ∷ org.anchortx ∷ []))

  unfoldable pub keep_joined : Driver (Unit {0})
  keep_joined = do modify (λ s. (record (s.0) { channels_joined = true }, s.1)); sleep 10000

  unfoldable pub create_channel : Driver String
  create_channel = docker_command_with_tls host (
      "exec" ∷ "org1_cli" ∷ "peer" ∷ "channel" ∷ "create" ∷ "-o" ∷ "orderer.example.com:7050" ∷ "-c"
      ∷ "mychannel" ∷ "-f" ∷ "/etc/hyperledger/configtx/channel.tx" ∷ "--outputBlock"
      ∷ "/etc/hyperledger/configtx/mychannel.block" ∷ [])

  unfoldable pub join_channels : Driver (Unit {0})
  unfolding create_channel join_org keep_joined
  join_channels = do create_channel; for_each join_org orgs; keep_joined

  abbrev pub unless_joined : Bool → Driver (Unit {0})
  unless_joined joined = if joined then pure tt else join_channels

  unfoldable pub create_channels : Driver (Unit {0})
  unfolding join_channels
  create_channels = do
    start_all_peers host
    joined ← gets (λ s. s.0.channels_joined)
    unless_joined joined
