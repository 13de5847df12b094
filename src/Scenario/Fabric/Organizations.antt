-- ===== src/Scenario/Fabric/Organizations.antt =====
-- The table of organizations in scenario/node/src/fabric.ts.
use Prim.Native.String.{◌++◌}
use fabric_gateway.Base.{String, none, some, List, [], ◌∷◌}
use fabric_gateway.Js.Object.{Object, get}
use fabric_gateway.Effect.{Result, ok}
use fabric_gateway.Errors.{JsError, throw_error}

pub record OrgInfo : Type 0 where
  pub org_name : String
  pub cli : String
  pub anchortx : String
  pub peers : List String

abbrev pub orgs : Object OrgInfo
orgs =
    (
      "Org1MSP",
      record {
        org_name = "org1.example.com";
        cli = "org1_cli";
        anchortx = "/etc/hyperledger/configtx/Org1MSPanchors.tx";
        peers = "peer0.org1.example.com:7051" ∷ "peer1.org1.example.com:9051" ∷ [];
      },
    )
    ∷ (
      "Org2MSP",
      record {
        org_name = "org2.example.com";
        cli = "org2_cli";
        anchortx = "/etc/hyperledger/configtx/Org2MSPanchors.tx";
        peers = "peer0.org2.example.com:8051" ∷ "peer1.org2.example.com:10051" ∷ [];
      },
    )
    ∷ (
      "Org3MSP",
      record {
        org_name = "org2.example.com";
        cli = "org3_cli";
        anchortx = "/etc/hyperledger/configtx/Org3MSPanchors.tx";
        peers = "peer0.org3.example.com:11051" ∷ [];
      },
    )
    ∷ []

-- No name of an organization in the table is empty.
unfoldable pub get_org_for_msp : String → Result JsError String
unfolding get
get_org_for_msp msp_id = elim (get msp_id orgs) [
  | none ↦ throw_error ("Unknown MSP: " ++ msp_id)
  | some org ↦ ok org.org_name
]
