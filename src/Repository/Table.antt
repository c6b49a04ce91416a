-- ===== src/Repository/Table.antt =====
-- What the three in-memory stores share: a map behind a lock that can be poisoned, the records filed
-- under a key of their own. Reading the file and `serde_json::from_str` are arguments.
use trust.Prelude.{
  ◌≡◌, ◌⊎◌, inl, inr, Bool, false, Option, none, some, List, [], ◌∷◌, ◌++◌, Text, codes, Eq, beq,
  if◌then◌else◌,
}
use trust.HashMap.{HashMap, get, insert, remove}
use trust.AppError.{AppError, ForeignError, general, gen_with_msg_and_err}
use trust.Result.{Result, ok, err, panic}

pub record InMemRepo (K V : Type 0) : Type 0 where
  pub is_poisoned : Bool
  pub table : HashMap K V

abbrev pub poisoned : Text
poisoned = codes "poisoned lock: another task failed inside"

abbrev pub write_error : AppError
write_error = general (codes "Failed to access write lock to DB: err=" ++ poisoned)

abbrev pub read_error : AppError
read_error = general (codes "Failed to access read lock to DB: err=" ++ poisoned)

abbrev pub new : {K V : Type 0} → InMemRepo K V
new = record { is_poisoned = false; table = [] }

module _ {K V : Type 0} ⦃e : Eq K⦄ where
  unfoldable pub find : K → InMemRepo K V → Result (Option V)
  find k r = if r.is_poisoned then err read_error else ok (get k r.table)

  unfoldable pub delete : K → InMemRepo K V → Result (Option V) × InMemRepo K V
  delete k r =
      if r.is_poisoned
      then (err write_error, r)
      else (ok (get k r.table), record r { table = remove k r.table })

module _ {K V : Type 0} ⦃e : Eq K⦄ (key : V → K) where
  unfoldable pub put : V → InMemRepo K V → Result (Option V) × InMemRepo K V
  put v r =
      if r.is_poisoned
      then (err write_error, r)
      else (ok (get (key v) r.table), record r { table = insert (key v) v r.table })

  -- `for record in records { self.put(record.clone())?; }`
  unfoldable pub put_all : List V → InMemRepo K V → Result (Unit {0}) × InMemRepo K V
  put_all [] r = (ok tt, r)
  put_all (v ∷ vs) r =
      let next = put v r in
      let rest = put_all vs next.1 in
      elim next.0 [ ok old ↦ rest | err e ↦ (err e, next.1) | panic ↦ (panic, next.1) ]

  -- A file that cannot be read or parsed changes nothing.
  unfoldable pub connect_to_datasource :
      (Text → Text ⊎ ForeignError)
      → (Text → List V ⊎ ForeignError)
      → Text
      → InMemRepo K V
      → Result (Unit {0}) × InMemRepo K V
  unfolding put_all
  connect_to_datasource read_to_string from_str spec r = elim (read_to_string spec) [
    | inr e ↦ (err (gen_with_msg_and_err (codes "Failed to read file: path=" ++ spec) e), r)
    | inl text ↦ elim (from_str text) [
      | inr e ↦ (err (gen_with_msg_and_err (codes "Failed to parse JSON: path=" ++ spec) e), r)
      | inl vs ↦ put_all vs r
    ]
  ]

  -- The last record of a list that is filed under a key, else what was there before.
  unfoldable pub last_or : K → List V → Option V → Option V
  last_or k [] old = old
  last_or k (v ∷ vs) old = last_or k vs (if beq (key v) k then some v else old)

  -- Keys are distinct, and each record is filed under its own.
  abbrev pub IsFiled : HashMap K V → Type 0
  IsFiled [] = Unit
  IsFiled ((k, v) ∷ m) = (k ≡ key v) × (get k m ≡ none) × IsFiled m
