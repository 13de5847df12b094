-- ===== src/Scenario/Fabric/Operations.antt =====
-- What a run of the scenarios asks of the object of class `Fabric` (scenario/node/src/fabric.ts), in
-- any order; a step that throws ends its scenario and leaves the object to the next one.
use fabric_gateway.Base.{String, List, [], ◌∷◌}
use fabric_gateway.Scenario.Fabric.{
  Host, Fabric, Log, Driver, docker_down, deploy_network, generate_hsm_user, stop_peer, start_peer,
}
use fabric_gateway.Scenario.Fabric.Channels.{create_channels}
use fabric_gateway.Scenario.Fabric.Chaincode.{Deployment, deploy_chaincode}

pub data Operation : Type 0 where
  down deploying creating : Operation
  generating stopping starting : String → Operation
  deploying_chaincode : Deployment → Operation

module _ (host : Host) where
  abbrev pub operate : Operation → Driver (Unit {0})
  operate down = docker_down host
  operate deploying = deploy_network host
  operate creating = create_channels host
  operate (generating user) = generate_hsm_user host user
  operate (stopping peer) = stop_peer host peer
  operate (starting peer) = start_peer host peer
  operate (deploying_chaincode d) = deploy_chaincode host d

  abbrev pub after : List Operation → Fabric × Log → Fabric × Log
  after [] s = s
  after (o ∷ os) s = after os (operate o s).1
