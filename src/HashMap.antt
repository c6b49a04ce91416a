-- ===== src/HashMap.antt =====
-- `std::collections::HashMap`, as the program uses it: an association list whose keys are distinct.
-- The order of the list stands for the iteration order, which the standard library leaves open.
pub mod Laws
use trust.Prelude.{
  ◌≡◌, ◌⊎◌, Bool, true, false, Option, none, some, List, [], ◌∷◌, map, if◌then◌else◌, Eq, beq,
}

abbrev pub HashMap : Type 0 → Type 0 → Type 0
HashMap K V = List (K × V)

module _ {K V : Type 0} where
  abbrev pub values : HashMap K V → List V
  values = map (λ e. e.1)

  abbrev pub keys : HashMap K V → List K
  keys = map (λ e. e.0)

module _ {K V : Type 0} ⦃e : Eq K⦄ where
  unfoldable pub get : K → HashMap K V → Option V
  get k [] = none
  get k ((j, v) ∷ m) = if beq j k then some v else get k m

  -- A key that is there keeps its place.
  unfoldable pub insert : K → V → HashMap K V → HashMap K V
  insert k v [] = (k, v) ∷ []
  insert k v ((j, w) ∷ m) = if beq j k then (j, v) ∷ m else (j, w) ∷ insert k v m

  unfoldable pub remove : K → HashMap K V → HashMap K V
  remove k [] = []
  remove k ((j, w) ∷ m) = let rest = remove k m in if beq j k then rest else (j, w) ∷ rest

  unfoldable pub contains_key : K → HashMap K V → Bool
  unfolding get
  contains_key k m = elim (get k m) [ some v ↦ true | none ↦ false ]

  -- The entry `(k, v)` is in the list.
  abbrev pub HasEntry : K → V → HashMap K V → Type 0
  HasEntry k v [] = ⊥
  HasEntry k v ((j, w) ∷ m) = ((j ≡ k) × (w ≡ v)) ⊎ HasEntry k v m

  -- What every map has that is built by `insert` and `remove`.
  abbrev pub IsDistinct : HashMap K V → Type 0
  IsDistinct [] = Unit
  IsDistinct ((j, w) ∷ m) = (get j m ≡ none) × IsDistinct m
