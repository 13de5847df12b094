-- ===== src/Scenario/World/Named.antt =====
-- Gateway contexts and their names (scenario/node/src/customworld.ts): what making a gateway adds, and
-- that every context is the one of some name while no name is used twice.
use text.Mathlib.Text.{◌==◌}
use text.Mathlib.TextEquality.{eq_iff}
use fabric_gateway.Base.{
  ℕ, ◌+◌, ◌<◌, ◌≡◌, refl, ap, sym, ◌∙◌, String, none, some, List, [], ◌∷◌, inl, inr, Bool-cases,
  false, arith, ◌⊎◌, All,
}
use native.Mathlib.Decide.{ℕ_discrete}
use fabric_gateway.Js.Object.{Object, get, put, get-put}
use fabric_gateway.Effect.{Result, ok, err, Result-cases, continue_with}
use fabric_gateway.Errors.{Thrown, History}
use fabric_gateway.Platform.{Platform}
use fabric_gateway.Identity.Hsm.{HsmSigner}
use fabric_gateway.Signing.{Identity}
use fabric_gateway.Scenario.Fabric.{Host}
use fabric_gateway.Scenario.Fixtures.{Files, new_identity, new_signer}
use fabric_gateway.Scenario.HsmUsers.{Tokens, HsmState, new_hsm_identity, new_hsm_signer, signer_of}
use fabric_gateway.Scenario.Context.{new_gateway_context}
use fabric_gateway.Scenario.World.{CustomWorld, add_context}
use fabric_gateway.Scenario.World.Contexts.{Same}
use fabric_gateway.Scenario.World.Calls.{
  create_gateway, create_gateway_without_signer, create_gateway_with_hsm_user,
}

-- The map of gateways after a context was made under a name.
abbrev pub HasAdded : String → CustomWorld → CustomWorld → Type 0
HasAdded name w w' =
    (w'.gateways ≡ put name w.contexts_made w.gateways) × (w'.contexts_made ≡ w.contexts_made + 1)

-- At most one context was made, under that name.
abbrev pub Added : String → CustomWorld → CustomWorld × History → Type 0
Added name w s = Same w.gateways w.contexts_made s ⊎ HasAdded name w s.0

module _ (host : Host) (files : Files) (name user msp_id : String) (w : CustomWorld)
    (h : History) where
  pub create_gateway-Added : Added name w (create_gateway host files name user msp_id (w, h)).1
  unfolding create_gateway add_context
  create_gateway-Added = elim (Result-cases (new_identity host files user msp_id)) [
    | inl (i, e) ↦ rw e (elim (Result-cases (new_signer host files user msp_id)) [
      | inl (s, f) ↦ rw f (inr (refl, refl))
      | inr (x, f) ↦ rw f (inl (refl, refl))
    ])
    | inr (x, e) ↦ rw e (inl (refl, refl))
  ]

  pub create_gateway_without_signer-Added :
      Added name w (create_gateway_without_signer host files name user msp_id (w, h)).1
  unfolding create_gateway_without_signer add_context
  create_gateway_without_signer-Added = elim (Result-cases (new_identity host files user msp_id)) [
    | inl (i, e) ↦ rw e (inr (refl, refl))
    | inr (x, e) ↦ rw e (inl (refl, refl))
  ]

  module _ (node : Platform) (tokens : Tokens) where
    Added-after :
        (i : Identity) (x : Result Thrown HsmSigner × HsmState)
        → Added name w
            (continue_with {B = Unit {0}}
              (λ hsm.
                add_context name
                  (new_gateway_context i (some (signer_of tokens hsm)) (some hsm.session)))
              (x.0, (record w { hsm = x.1 }, h))).1
    unfolding add_context
    Added-after i (ok hsm, s) = inr (refl, refl)
    Added-after i (err x, s) = inl (refl, refl)

    pub create_gateway_with_hsm_user-Added :
        Added name w (create_gateway_with_hsm_user host files node tokens name user msp_id (w, h)).1
    unfolding create_gateway_with_hsm_user
    create_gateway_with_hsm_user-Added =
        elim (Result-cases (new_hsm_identity host files user msp_id)) [
          | inl (i, e) ↦ rw e (Added-after i (new_hsm_signer host files node tokens user w.hsm))
          | inr (x, e) ↦ rw e (inl (refl, refl))
        ]

-- Each context that was made is the one of some name.
abbrev pub AreNamed : Object ℕ → ℕ → Type 0
AreNamed gateways made = (n : ℕ) → n < made → (name : String) × (get name gateways ≡ some n)

-- Names that no gateway has.
abbrev pub AreFree : Object ℕ → List String → Type 0
AreFree gateways names = All (λ name. get name gateways ≡ none) names

abbrev pub AreOther : String → List String → Type 0
AreOther name names = All (λ other. name == other ≡ false) names

abbrev pub AreDistinct : List String → Type 0
AreDistinct [] = Unit
AreDistinct (name ∷ names) = AreOther name names × AreDistinct names

module _ (name : String) (gateways : Object ℕ) (made : ℕ) where
  pub AreNamed-put :
      AreNamed gateways made
      → get name gateways ≡ none
      → AreNamed (put name made gateways) (made + 1)
  AreNamed-put named free n p = elim (ℕ_discrete n made) [
    | yes e ↦ (
      name,
      get-put name name made gateways ∙ (ground (arith, eq_iff name name) ∙ ap some (sym e)),
    )
    | no e ↦
        let (other, at) = named n (omega arith) in
        (
          other,
          get-put name other made gateways ∙ elim (Bool-cases (name == other)) [
            | inl same ↦ cc (ap (λ a. get a gateways) ((eq_iff name other).0 same), free, at)
            | inr differ ↦ simp differ at
          ],
        )
  ]

  pub AreFree-put :
      (names : List String)
      → AreFree gateways names
      → AreOther name names
      → AreFree (put name made gateways) names
  AreFree-put [] free other = tt
  AreFree-put (a ∷ names) (f, free) (o, other) =
      (get-put name a made gateways ∙ simp o f, AreFree-put names free other)
