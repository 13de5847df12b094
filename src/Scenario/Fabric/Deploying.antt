-- ===== src/Scenario/Fabric/Deploying.antt =====
-- Deploying a chaincode more than once.
use text.Mathlib.Text.{◌==◌}
use text.Mathlib.TextEquality.{eq_iff}
use fabric_gateway.Base.{
  ◌≡◌, refl, sym, ap, subst, ◌∙◌, String, Option, none, some, Bool, inl, inr, arith, true, false,
}
use fabric_gateway.Base.{Bool-cases}
use fabric_gateway.Js.Object.{get, get-put}
use fabric_gateway.Effect.{ok}
use fabric_gateway.Effect.Whole.{for_each, Ensures, Ensures->>=, Ensures-end}
use fabric_gateway.Scenario.Fabric.{Host, Fabric, Log, orgs, docker_command_with_tls}
use fabric_gateway.Scenario.Fabric.Chaincode.{
  Deployment, mangled_name, define, deploy_over, deploy_chaincode, look_for_collections, approve,
  commit_args, query_sequence, keep_policy,
}

-- The chaincode runs under its policy, as far as the driver knows.
abbrev IsDeployed : Deployment → Fabric × Log → Type 0
IsDeployed d s = get (mangled_name d) s.0.running_chaincodes ≡ some d.signature_policy

module _ (host : Host) (d : Deployment) where
  define-IsDeployed :
      (exists : Bool) (sequence : String) → Ensures (IsDeployed d) (define host d exists sequence)
  unfolding define keep_policy
  define-IsDeployed exists sequence = Ensures->>= (look_for_collections host d) λ collections.
      Ensures->>= (for_each (approve host d exists sequence collections) orgs) λ _.
        Ensures->>= (docker_command_with_tls host (commit_args d sequence collections))
          {f = λ _. keep_policy host d}
          λ _. Ensures-end λ s.
            get-put (mangled_name d) (mangled_name d) d.signature_policy s.0.running_chaincodes
            ∙ ground (arith, eq_iff (mangled_name d) (mangled_name d))

  -- Under the same policy, nothing is left to be done.
  deploy_over-same :
      (policy : String) (s : Fabric × Log)
      → policy == d.signature_policy ≡ true
      → deploy_over host d (some policy) s ≡ (ok tt, s)
  deploy_over-same policy s same = rw same

  deploy_over-IsDeployed :
      (policy : Option String) (s s' : Fabric × Log)
      → get (mangled_name d) s.0.running_chaincodes ≡ policy
      → deploy_over host d policy s ≡ (ok tt, s')
      → IsDeployed d s'
  deploy_over-IsDeployed none s s' e r = (define-IsDeployed false "1").at s tt s' r
  deploy_over-IsDeployed (some policy) s s' e r = elim (Bool-cases (policy == d.signature_policy)) [
    | inl same ↦
        subst (IsDeployed d) (ap (λ y. y.1) (sym (deploy_over-same policy s same) ∙ r))
          (e ∙ ground (arith, same, eq_iff policy d.signature_policy))
    | inr other ↦
        (Ensures->>= (query_sequence host d) {f = λ n. define host d true n}
            (define-IsDeployed true)).at
          s tt s' (rw other at r)
  ]

  deploy_chaincode-IsDeployed :
      (s s' : Fabric × Log) → deploy_chaincode host d s ≡ (ok tt, s') → IsDeployed d s'
  unfolding deploy_chaincode
  deploy_chaincode-IsDeployed s s' r =
      deploy_over-IsDeployed (get (mangled_name d) s.0.running_chaincodes) s s' refl r

-- Where a deployment has returned, another one with the same name, version and channel, run together
-- to one text, and the same policy asks nothing of the host and changes nothing.
pub deploy_chaincode-again :
    (host : Host) (d d' : Deployment) (s s' : Fabric × Log)
    → deploy_chaincode host d s ≡ (ok tt, s')
    → mangled_name d' ≡ mangled_name d
    → d'.signature_policy ≡ d.signature_policy
    → deploy_chaincode host d' s' ≡ (ok tt, s')
unfolding deploy_chaincode
deploy_chaincode-again host d d' s s' r name policy =
    rw (ap (λ n. get n s'.0.running_chaincodes) name ∙ deploy_chaincode-IsDeployed host d s s' r) (
      deploy_over-same host d' d.signature_policy s'
        (ground (arith, policy, eq_iff d.signature_policy d'.signature_policy)))
