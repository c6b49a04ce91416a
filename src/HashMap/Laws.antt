-- ===== src/HashMap/Laws.antt =====
-- The laws of the maps: what a lookup finds after an update, and that the keys stay distinct.
use trust.Prelude.{
  ◌≡◌, ◌≢◌, inl, inr, refl, true, false, none, some, [], ◌∷◌, arith, if◌then◌else◌, Eq, beq, same,
}
use trust.HashMap.{HashMap, get, insert, remove, contains_key, HasEntry, IsDistinct}

module _ {K V : Type 0} ⦃e : Eq K⦄ where
  pub get-insert :
      (k j : K) (v : V) (m : HashMap K V)
      → get j (insert k v m) ≡ (if beq k j then some v else get j m)
  unfolding get insert
  get-insert k j v [] = refl
  get-insert k j v ((i, w) ∷ m) = ground (arith, same k j, same i k, same i j, get-insert k j v m)

  pub get-remove :
      (k j : K) (m : HashMap K V) → get j (remove k m) ≡ (if beq k j then none else get j m)
  unfolding get remove
  get-remove k j [] = ground arith
  get-remove k j ((i, w) ∷ m) = ground (arith, same k j, same i k, same i j, get-remove k j m)

  pub get-insert_self : (k : K) (v : V) (m : HashMap K V) → get k (insert k v m) ≡ some v
  get-insert_self k v m = ground (arith, get-insert k k v m, same k k)

  pub get-remove_self : (k : K) (m : HashMap K V) → get k (remove k m) ≡ none
  get-remove_self k m = ground (arith, get-remove k k m, same k k)

  pub get-insert_ne : (k j : K) (v : V) (m : HashMap K V) → k ≢ j → get j (insert k v m) ≡ get j m
  get-insert_ne k j v m h = ground (arith, get-insert k j v m, same k j)

  pub get-remove_ne : (k j : K) (m : HashMap K V) → k ≢ j → get j (remove k m) ≡ get j m
  get-remove_ne k j m h = ground (arith, get-remove k j m, same k j)

  pub insert-IsDistinct :
      (k : K) (v : V) (m : HashMap K V) → IsDistinct m → IsDistinct (insert k v m)
  unfolding insert get
  insert-IsDistinct k v [] h = ground arith
  insert-IsDistinct k v ((i, w) ∷ m) h =
      ground (arith, same i k, same k i, get-insert k i v m, insert-IsDistinct k v m h.1)

  pub remove-IsDistinct : (k : K) (m : HashMap K V) → IsDistinct m → IsDistinct (remove k m)
  unfolding remove
  remove-IsDistinct k [] h = tt
  remove-IsDistinct k ((i, w) ∷ m) h =
      ground (arith, same k i, get-remove k i m, remove-IsDistinct k m h.1)

  -- With distinct keys, iterating meets just the entries that a lookup finds.
  pub get-HasEntry : (k : K) (v : V) (m : HashMap K V) → get k m ≡ some v → HasEntry k v m
  unfolding get
  get-HasEntry k v [] h = cc
  get-HasEntry k v ((i, w) ∷ m) h = ground (arith, same i k, get-HasEntry k v m)

  pub HasEntry-get :
      (k : K) (v : V) (m : HashMap K V) → IsDistinct m → HasEntry k v m → get k m ≡ some v
  unfolding get
  HasEntry-get k v [] d h = absurd h
  HasEntry-get k v ((i, w) ∷ m) d (inl h) = ground (arith, same i k)
  HasEntry-get k v ((i, w) ∷ m) d (inr h) = ground (arith, same i k, HasEntry-get k v m d.1 h, d.0)

  pub contains_key-insert :
      (k j : K) (v : V) (m : HashMap K V)
      → contains_key j (insert k v m) ≡ (if beq k j then true else contains_key j m)
  unfolding contains_key
  contains_key-insert k j v m = ground (arith, get-insert k j v m)

  pub contains_key-remove :
      (k j : K) (m : HashMap K V)
      → contains_key j (remove k m) ≡ (if beq k j then false else contains_key j m)
  unfolding contains_key
  contains_key-remove k j m = ground (arith, get-remove k j m)
