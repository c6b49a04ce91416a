-- ===== src/Control/Response/Values.antt =====
-- Lists of records on their way through JSON values.
use trust.Prelude.{◌≡◌, inl, refl, none, some, List, [], ◌∷◌, Text, arith}
use trust.Result.{Result, ok, err, panic, >>=-eq-ok}
use trust.Control.Response.{Json, Codec, or_msg, cons_ok, collect, from_serde_value, try_into}

-- What `serde_json` promises for one type: a value that was written is read back, and an array has
-- just its items, while a struct is written as no array.
pub record IsCodec (j : Json) {A : Type 0} (c : Codec j.Value A) : Type 0 where
  pub from_to : (a : A) (v : j.Value) → c.to_value a ≡ inl v → c.from_value v ≡ inl a
  pub no_array : (a : A) (v : j.Value) → c.to_value a ≡ inl v → j.as_array v ≡ none
  pub array_items : (vs : List j.Value) → j.as_array (j.array vs) ≡ some vs

module _ {B : Type 0} where
  cons_ok-eq-ok :
      (b : B) (r : Result (List B)) {bs : List B}
      → cons_ok b r ≡ ok bs
      → (cs : List B) × (r ≡ ok cs) × (bs ≡ b ∷ cs)
  cons_ok-eq-ok b (ok cs) h = (cs, refl, cc)
  cons_ok-eq-ok b (err e) h = cc
  cons_ok-eq-ok b panic h = cc

module _ (j : Json) {A : Type 0} (c : Codec j.Value A) (name : Text) (laws : IsCodec j c) where
  pub try_into-from_to : (a : A) (v : j.Value) → try_into j c name a ≡ ok v → c.to_value a ≡ inl v
  unfolding try_into
  try_into-from_to a v h = ground arith

  collect-collect :
      (msg : Text) (xs : List A) (vs : List j.Value)
      → collect (try_into j c name) xs ≡ ok vs
      → collect (λ v. or_msg msg (c.from_value v)) vs ≡ ok xs
  unfolding collect
  collect-collect msg [] [] h = refl
  collect-collect msg [] (v ∷ vs) h = cc
  collect-collect msg (x ∷ xs) vs h =
      let (v, e, h') =
        >>=-eq-ok (λ b. cons_ok b (collect (try_into j c name) xs)) (try_into j c name x) h in
      let (ws, e', q) = cons_ok-eq-ok v (collect (try_into j c name) xs) h' in
      rw q (rw (laws.from_to x v (try_into-from_to x v e)) (rw (collect-collect msg xs ws e')))

  -- Where the JSON library reads back what it writes, and writes the record as no array, a record that
  -- was written alone is read back as a list of one.
  pub from_serde_value-one :
      (items_msg value_msg : Text) (a : A) (v : j.Value)
      → try_into j c name a ≡ ok v
      → from_serde_value j c items_msg value_msg v ≡ ok (a ∷ [])
  unfolding from_serde_value
  from_serde_value-one items_msg value_msg a v h =
      let e = try_into-from_to a v h in
      rw (laws.no_array a v e, from_serde_value) (rw (laws.from_to a v e))

  -- Where the JSON library reads back what it writes, a list of records that was written as an array
  -- is read back, item by item and in order.
  from_serde_value-array :
      (items_msg value_msg : Text) (xs : List A) (vs : List j.Value)
      → collect (try_into j c name) xs ≡ ok vs
      → from_serde_value j c items_msg value_msg (j.array vs) ≡ ok xs
  unfolding from_serde_value
  from_serde_value-array items_msg value_msg xs vs h =
      rw (laws.array_items vs, from_serde_value) (collect-collect items_msg xs vs h)
