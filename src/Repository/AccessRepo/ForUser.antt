-- ===== src/Repository/AccessRepo/ForUser.antt =====
-- What a user may use, listed and asked for one service at a time.
use trust.Prelude.{ℕ, ◌≡◌, ◌↔◌, false, some, List, [], ◌∷◌, In, same, nat_eq, pair_eq, arith}
use trust.HashMap
use trust.HashMap.{HashMap, HasEntry, IsDistinct}
use trust.Result.{ok}
use trust.Model.{ServiceAccess}
use trust.Repository.Table.{IsFiled, find}
use trust.Repository.AccessRepo.{AccessRepo, access_key, get, entries_of, get_all_for_user}

entries_of-get :
    (u : ℕ) (a : ServiceAccess) (m : HashMap (ℕ × ℕ) ServiceAccess)
    → IsFiled access_key m
    → (In a (entries_of u m) ↔ ((a.user_id ≡ u) × (HashMap.get (access_key a) m ≡ some a)))
unfolding entries_of HashMap.get
entries_of-get u a [] h = ground arith
entries_of-get u a ((k, b) ∷ m) h = ground (arith, entries_of-get u a m h.2, same k (access_key a))

-- In a store that is not poisoned and whose records are filed under their own ids, the list for a user holds an access just
-- if it is the user's and a lookup by user and service finds it.
pub get_all_for_user-get :
    (u : ℕ) (a : ServiceAccess) (r : AccessRepo)
    → IsFiled access_key r.table
    → r.is_poisoned ≡ false
    → (accesses : List ServiceAccess) × (get_all_for_user u r ≡ ok accesses)
      × (In a accesses ↔ ((a.user_id ≡ u) × (get u a.service_id r ≡ ok (some a))))
unfolding get_all_for_user get find
get_all_for_user-get u a r filed healthy =
    (entries_of u r.table, ground arith, ground (arith, entries_of-get u a r.table filed))
