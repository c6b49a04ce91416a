-- ===== src/Gateway/Device.antt =====
-- crates/gateway/src/client/device.rs: what a client certificate says of its device. The parts of a
-- certificate come from `x509_parser` and the context from `serde_json`: both are the parameter `X509`.
use trust.Prelude.{ℕ, ◌⊎◌, inl, inr, Option, none, some, List, [], ◌∷◌, ◌++◌, Text, codes, text_eq}
use trust.HashMap.{HashMap, get, insert}
use trust.AppError.{ForeignError, general, gen_with_msg_and_err}
use trust.Result.{Result, ok, err, panic, ◌>>=◌}

pub record CertAccessContext : Type 0 where
  pub user_id : ℕ
  pub platform : Text

pub record Device : Type 0 where
  pub cert_subj : HashMap Text (List Text)
  pub cert_alt_subj : HashMap Text (List Text)
  pub cert_access_context : CertAccessContext

abbrev pub default_context : CertAccessContext
default_context = record { user_id = 0; platform = [] }

-- `Device::default()`.
abbrev pub default_device : Device
default_device = record {
  cert_subj = [];
  cert_alt_subj = [];
  cert_access_context = default_context;
}

pub data GeneralName : Type 0 where
  uri : Text → GeneralName
  other_name : GeneralName

-- A parsed certificate: the attributes of its subject, each with the text that `stringify_asn_value`
-- makes of its value, and the names of the extension "subject alternative name", if it has one.
pub record X509Certificate : Type 0 where
  pub subject : List (Text × Result Text)
  pub subject_alternative_name : Option (List GeneralName) ⊎ ForeignError

pub record X509 : Type 1 where
  pub Certificate : Type 0
  pub parse_x509_certificate : Certificate → X509Certificate ⊎ ForeignError
  pub context_from_str : Text → CertAccessContext ⊎ ForeignError

-- `iter_group`: the values of each key, in order.
abbrev pub or_nil : Option (List Text) → List Text
or_nil none = []
or_nil (some vs) = vs

abbrev pub push_value : Text → Text → HashMap Text (List Text) → HashMap Text (List Text)
push_value k v m = insert k (or_nil (get k m) ++ v ∷ []) m

unfoldable pub group : List (Text × Text) → HashMap Text (List Text) → HashMap Text (List Text)
unfolding get insert
group [] m = m
group ((k, v) ∷ es) m = group es (push_value k v m)

-- The attributes, up to the first that fails.
unfoldable pub attributes : List (Text × Result Text) → Result (List (Text × Text))
attributes [] = ok []
attributes ((k, r) ∷ es) = let rest = attributes es in r >>= λ v. rest >>= λ vs. ok ((k, v) ∷ vs)

abbrev pub uris : List GeneralName → List (Text × Text)
uris [] = []
uris (uri value ∷ names) = (codes "URI", value) ∷ uris names
uris (other_name ∷ names) = uris names

module _ (x : X509) where
  -- `Device::device_cert`: the first certificate of the chain.
  unfoldable pub device_cert : List x.Certificate → Result X509Certificate
  device_cert [] = err (general (codes "Empty client certificate chain (1)"))
  device_cert (cert ∷ rest) = elim (x.parse_x509_certificate cert) [
    | inr e ↦ err (gen_with_msg_and_err (codes "Failed to parse client certificate") e)
    | inl c ↦ ok c
  ]

  -- The context is the JSON text of the first URI.
  unfoldable pub access_context : Option (List Text) → Result CertAccessContext
  access_context none = ok default_context
  access_context (some []) = panic
  access_context (some (value ∷ rest)) = elim (x.context_from_str value) [
    | inr e ↦ err (gen_with_msg_and_err (codes "Invalid Certificate Context JSON") e)
    | inl c ↦ ok c
  ]

  unfoldable pub alt_subject :
      Option (List GeneralName) ⊎ ForeignError
      → Result (HashMap Text (List Text) × CertAccessContext)
  unfolding group access_context
  alt_subject (inr e) =
      err (gen_with_msg_and_err (codes "Failed to parse subject alternative name") e)
  alt_subject (inl none) = ok ([], default_context)
  alt_subject (inl (some names)) =
      let cert_alt_subj = group (uris names) [] in
      access_context (get (codes "URI") cert_alt_subj) >>= λ c. ok (cert_alt_subj, c)

  -- `Device::new`.
  unfoldable pub new : List x.Certificate → Result Device
  unfolding device_cert attributes alt_subject
  new device_cert_chain = do
    cert ← device_cert device_cert_chain
    attrs ← attributes cert.subject
    alt ← alt_subject cert.subject_alternative_name
    ok (record { cert_subj = group attrs []; cert_alt_subj = alt.0; cert_access_context = alt.1 })
