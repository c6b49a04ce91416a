-- ===== src/Repository/Laws.antt =====
-- The laws of the stores, for records filed under any key.
use trust.Prelude.{◌≡◌, ◌⊎◌, inl, false, List, [], ◌∷◌, Text, Eq, same, arith}
use trust.HashMap.{HashMap, get, insert, remove}
use trust.HashMap.Laws.{get-insert, get-remove}
use trust.AppError.{ForeignError}
use trust.Result.{ok}
use trust.Repository.Table.{
  InMemRepo, put, put_all, find, delete, connect_to_datasource, last_or, IsFiled,
}

module _ {K V : Type 0} ⦃e : Eq K⦄ (key : V → K) where
  -- Storing the records of a list leaves, under each key, the last of them that has it.
  pub get-put_all :
      (vs : List V) (r : InMemRepo K V) (k : K)
      → r.is_poisoned ≡ false
      → ((put_all key vs r).0 ≡ ok tt)
        × ((put_all key vs r).1.is_poisoned ≡ false)
        × (get k (put_all key vs r).1.table ≡ last_or key k vs (get k r.table))
  unfolding put_all put last_or
  get-put_all [] r k h = ground arith
  get-put_all (v ∷ vs) r k h = ground (
    arith,
    get-insert (key v) k v r.table,
    get-put_all vs (record r { table = insert (key v) v r.table }) k h,
  )

  insert-IsFiled : (v : V) (m : HashMap K V) → IsFiled key m → IsFiled key (insert (key v) v m)
  unfolding insert get
  insert-IsFiled v [] h = ground arith
  insert-IsFiled v ((i, w) ∷ m) h =
      ground
        (arith, same i (key v), same (key v) i, get-insert (key v) i v m, insert-IsFiled v m h.2)

  remove-IsFiled : (k : K) (m : HashMap K V) → IsFiled key m → IsFiled key (remove k m)
  unfolding remove
  remove-IsFiled k [] h = tt
  remove-IsFiled k ((i, w) ∷ m) h =
      ground (arith, same i k, get-remove k i m, remove-IsFiled k m h.2)

  pub put-IsFiled :
      (v : V) (r : InMemRepo K V) → IsFiled key r.table → IsFiled key (put key v r).1.table
  unfolding put
  put-IsFiled v r h = ground (arith, insert-IsFiled v r.table h)

  pub put_all-IsFiled :
      (vs : List V) (r : InMemRepo K V)
      → IsFiled key r.table
      → IsFiled key (put_all key vs r).1.table
  unfolding put_all
  put_all-IsFiled [] r h = h
  put_all-IsFiled (v ∷ vs) r h =
      ground (arith, put-IsFiled v r h, put_all-IsFiled vs (put key v r).1)

  pub delete-IsFiled :
      (k : K) (r : InMemRepo K V) → IsFiled key r.table → IsFiled key (delete k r).1.table
  unfolding delete
  delete-IsFiled k r h = ground (arith, remove-IsFiled k r.table h)

  -- Once a file of records is read and parsed into a store that is not poisoned, each key has the last record of the file that is
  -- filed under it, or what the store had there before.
  pub connect_to_datasource-find :
      (read_to_string : Text → Text ⊎ ForeignError) (from_str : Text → List V ⊎ ForeignError)
      (spec text : Text) (vs : List V) (r : InMemRepo K V) (k : K)
      → r.is_poisoned ≡ false
      → read_to_string spec ≡ inl text
      → from_str text ≡ inl vs
      → let loaded = connect_to_datasource key read_to_string from_str spec r in
        (loaded.0 ≡ ok tt) × (find k loaded.1 ≡ ok (last_or key k vs (get k r.table)))
  unfolding connect_to_datasource find
  connect_to_datasource-find read_to_string from_str spec text vs r k h e p =
      ground (arith, get-put_all vs r k h)
