-- ===== src/Js/Object.antt =====
-- A plain object, as the list of its own properties in insertion order.
use text.Mathlib.Text.{◌==◌}
use text.Mathlib.TextEquality.{eq_iff}
use fabric_gateway.Base.{◌≡◌, refl, String, Option, none, some, List, [], ◌∷◌, arith, if◌then◌else◌}

abbrev pub Object : Type 0 → Type 0
Object V = List (String × V)

module _ {V : Type 0} where
  -- `object[key]`
  unfoldable pub get : String → Object V → Option V
  get k [] = none
  get k ((j, v) ∷ o) = if j == k then some v else get k o

  -- `object[key] = value`
  unfoldable pub put : String → V → Object V → Object V
  put k v [] = (k, v) ∷ []
  put k v ((j, w) ∷ o) = if j == k then (k, v) ∷ o else (j, w) ∷ put k v o

  -- `map.delete(key)`
  unfoldable pub delete : String → Object V → Object V
  delete k [] = []
  delete k ((j, w) ∷ o) = let rest = delete k o in if j == k then rest else (j, w) ∷ rest

  -- `Object.assign(target, source)`
  unfoldable pub assign : Object V → Object V → Object V
  assign target [] = target
  assign target ((k, v) ∷ source) = assign (put k v target) source

  abbrev pub or_else : Option V → Option V → Option V
  or_else (some v) w = some v
  or_else none w = w

  pub get-put :
      (k j : String) (v : V) (o : Object V)
      → get j (put k v o) ≡ (if k == j then some v else get j o)
  unfolding get put
  get-put k j v [] = refl
  get-put k j v ((i, w) ∷ o) = ground (arith, eq_iff k j, eq_iff i k, eq_iff i j, get-put k j v o)

  pub get-delete :
      (k j : String) (o : Object V) → get j (delete k o) ≡ (if k == j then none else get j o)
  unfolding get delete
  get-delete k j [] = ground arith
  get-delete k j ((i, w) ∷ o) = ground (arith, eq_iff k j, eq_iff i k, eq_iff i j, get-delete k j o)

-- No key stands twice, as in every object.
abbrev pub HasDistinctKeys : {V : Type 0} → Object V → Type 0
HasDistinctKeys [] = Unit
HasDistinctKeys ((k, v) ∷ o) = (get k o ≡ none) × HasDistinctKeys o

-- A property of the source wins, and the others of the target stay.
pub get-assign :
    {V : Type 0} (k : String) (target source : Object V)
    → HasDistinctKeys source
    → get k (assign target source) ≡ or_else (get k source) (get k target)
unfolding get assign
get-assign k target [] d = refl
get-assign k target ((j, v) ∷ source) (fresh, d) =
    ground (arith, get-assign k (put j v target) source d, get-put j k v target, eq_iff j k)

put-HasDistinctKeys :
    {V : Type 0} (k : String) (v : V) (o : Object V)
    → HasDistinctKeys o
    → HasDistinctKeys (put k v o)
unfolding put get
put-HasDistinctKeys k v [] d = (refl, tt)
put-HasDistinctKeys k v ((j, w) ∷ o) (fresh, d) =
    ground (arith, eq_iff j k, eq_iff k j, get-put k j v o, put-HasDistinctKeys k v o d)

pub assign-HasDistinctKeys :
    {V : Type 0} (target source : Object V)
    → HasDistinctKeys target
    → HasDistinctKeys (assign target source)
unfolding assign
assign-HasDistinctKeys target [] d = d
assign-HasDistinctKeys target ((k, v) ∷ source) d =
    assign-HasDistinctKeys (put k v target) source (put-HasDistinctKeys k v target d)

pub or_else-none : {V : Type 0} (v : Option V) → or_else v none ≡ v
or_else-none none = refl
or_else-none (some v) = refl
