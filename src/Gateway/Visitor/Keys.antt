-- ===== src/Gateway/Visitor/Keys.antt =====
-- The lists of keys by user, after a key is dropped or added.
use trust.Prelude.{
  ℕ, ◌≡◌, ◌≢◌, ◌↔◌, ◌⊎◌, Option, none, some, List, [], ◌∷◌, ◌++◌, Text, In, same, text_eq, nat_eq,
  arith, ◌==◌, if◌then◌else◌,
}
use trust.HashMap.{HashMap, get}
use trust.HashMap.Laws.{get-insert}
use trust.Gateway.Visitor.{retain_others, retain_for_user, push_for_user}

abbrev pub or_nil : Option (List Text) → List Text
or_nil none = []
or_nil (some keys) = keys

-- The keys of a user.
abbrev pub keys_of : ℕ → HashMap ℕ (List Text) → List Text
keys_of user_id m = or_nil (get user_id m)

pub In-retain_others :
    (j k : Text) (keys : List Text) → In j (retain_others k keys) ↔ (In j keys × (k ≢ j))
unfolding retain_others
In-retain_others j k [] = ground arith
In-retain_others j k (i ∷ keys) =
    ground (arith, In-retain_others j k keys, same i k, same i j, same k j)

pub In-snoc : (j k : Text) (keys : List Text) → In j (keys ++ k ∷ []) ↔ (In j keys ⊎ (k ≡ j))
In-snoc j k [] = ground arith
In-snoc j k (i ∷ keys) = ground (arith, In-snoc j k keys)

pub keys_of-retain_for_user :
    (k : Text) (u w : ℕ) (m : HashMap ℕ (List Text))
    → keys_of w (retain_for_user k u m)
      ≡ (if u == w then retain_others k (keys_of w m) else keys_of w m)
unfolding retain_for_user
keys_of-retain_for_user k u w m = ground (arith, get-insert u w (retain_others k (keys_of u m)) m)

pub keys_of-push_for_user :
    (k : Text) (u w : ℕ) (m : HashMap ℕ (List Text))
    → keys_of w (push_for_user k u m) ≡ (if u == w then keys_of w m ++ k ∷ [] else keys_of w m)
unfolding push_for_user
keys_of-push_for_user k u w m =
    ground (arith, get-insert u w (k ∷ []) m, get-insert u w (keys_of u m ++ k ∷ []) m)
