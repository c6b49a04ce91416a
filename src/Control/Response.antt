-- ===== src/Control/Response.antt =====
-- crates/common/src/control/response.rs: what the gateway answers. `serde_json` is the parameter
-- `Json`: its `Value`, and its conversions from and to the records below.
pub mod Address
pub mod Values
use trust.Prelude.{
  ℕ, ◌≡◌, ◌⊎◌, inl, inr, Bool, Option, none, some, List, [], ◌∷◌, ◌++◌, Text, codes, if◌then◌else◌,
}
use trust.Text.{colon, show, split, parse_uint, u16_bound}
use trust.AppError.{AppError, ForeignError, gen_with_msg_and_err}
use trust.Result.{Result, ok, err, ◌>>=◌}
use trust.Model
use trust.Model.{Transport}
use trust.Control.Request.{Request, is_empty}

pub record Response (Value : Type 0) : Type 0 where
  pub code : ℕ
  pub message : Option Text
  pub request : Request
  pub data_value : Option Value

pub record User : Type 0 where
  pub user_id : ℕ
  pub name : Text
  pub status : Text

pub record About : Type 0 where
  pub cert_subject : Option Text
  pub cert_alt_subj : Option Text
  pub cert_context : Option Text
  pub user : Option User

pub record Service : Type 0 where
  pub id : ℕ
  pub name : Text
  pub transport : Transport
  pub address : Option Text

pub record Proxy : Type 0 where
  pub service : Service
  pub gateway_host : Option Text
  pub gateway_port : ℕ
  pub client_port : Option ℕ

pub record Connection : Type 0 where
  pub service_name : Text
  pub binds : List (List Text)

-- `serde_json::to_value` and `from_value` at one type.
pub record Codec (Value A : Type 0) : Type 0 where
  pub to_value : A → Value ⊎ ForeignError
  pub from_value : Value → A ⊎ ForeignError

pub record Json : Type 1 where
  pub Value : Type 0
  pub array : List Value → Value
  pub as_array : Value → Option (List Value)
  pub string : Text → Value
  pub about : Codec Value About
  pub proxy : Codec Value Proxy
  pub service : Codec Value Service
  pub connection : Codec Value Connection
  pub to_string : Response Value → Text ⊎ ForeignError
  pub from_str : Text → Response Value ⊎ ForeignError

-- `map_err(|err| AppError::GenWithMsgAndErr(msg, Box::new(err)))`.
abbrev pub or_msg : {A : Type 0} → Text → A ⊎ ForeignError → Result A
or_msg msg (inl a) = ok a
or_msg msg (inr e) = err (gen_with_msg_and_err msg e)

-- `iter().map(f).collect::<Result<Vec<_>, _>>()`.
abbrev pub cons_ok : {B : Type 0} → B → Result (List B) → Result (List B)
cons_ok b r = r >>= λ bs. ok (b ∷ bs)

module _ {A B : Type 0} where
  unfoldable pub collect : (A → Result B) → List A → Result (List B)
  collect f [] = ok []
  collect f (a ∷ xs) = let rest = collect f xs in f a >>= λ b. cons_ok b rest

-- `from_serde_value`: an array is read item by item, any other value as one item. The two texts are
-- those of its errors.
module _ (j : Json) {A : Type 0} where
  unfoldable pub from_serde_value : Codec j.Value A → Text → Text → j.Value → Result (List A)
  unfolding collect
  from_serde_value c items_msg value_msg value = elim (j.as_array value) [
    | some items ↦ collect (λ v. or_msg items_msg (c.from_value v)) items
    | none ↦ or_msg value_msg (c.from_value value) >>= λ a. ok (a ∷ [])
  ]

  -- `impl TryInto<Value>`.
  unfoldable pub try_into : Codec j.Value A → Text → A → Result j.Value
  try_into c name a =
      or_msg (codes "Error converting " ++ (name ++ codes " to serde Value")) (c.to_value a)

module _ (j : Json) where
  -- `Proxy::from_serde_value`.
  abbrev pub proxies_from_serde_value : j.Value → Result (List Proxy)
  proxies_from_serde_value =
      from_serde_value j j.proxy (codes "Error converting serde Value::Array to Proxy")
        (codes "Error converting serde Value to Proxy")

  -- `Service::from_serde_value`.
  abbrev pub services_from_serde_value : j.Value → Result (List Service)
  services_from_serde_value =
      from_serde_value j j.service (codes "Error converting serde Value to Service")
        (codes "Error converting serde Value to Service")

  -- `Connection::from_serde_value`.
  abbrev pub connections_from_serde_value : j.Value → Result (List Connection)
  connections_from_serde_value =
      from_serde_value j j.connection (codes "Error converting serde Value to Connection")
        (codes "Error converting serde Value to Connection")

  -- `Response::parse`.
  unfoldable pub parse : Text → Result (Response j.Value)
  parse line = or_msg (codes "Failed to parse response JSON: val=" ++ line) (j.from_str line)

-- `impl From<&model::service::Service> for Service`.
unfoldable pub of_model : Model.Service → Service
of_model s = record {
  id = s.service_id;
  name = s.name;
  transport = s.transport;
  address = if is_empty s.host then none else some (s.host ++ colon ∷ show s.port);
}

abbrev pub or_zero : Option ℕ → ℕ
or_zero none = 0
or_zero (some n) = n

-- The host and port of an address: just two parts at a colon.
abbrev pub host_port : List Text → Text × ℕ
host_port (host ∷ port ∷ []) = (host, or_zero (parse_uint u16_bound port))
host_port _ = ([], 0)

abbrev pub split_address : Option Text → Text × ℕ
split_address none = ([], 0)
split_address (some address) = host_port (split colon address)

-- `impl From<Service> for model::service::Service`.
unfoldable pub to_model : Service → Model.Service
to_model s =
    let hp = split_address s.address in
    record { service_id = s.id; name = s.name; transport = s.transport; host = hp.0; port = hp.1 }
