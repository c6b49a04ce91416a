-- ===== src/Tests/Wire.antt =====
-- A JSON library small enough to be inverted: it writes the answer to a `start` whose texts have one
-- character each, and nothing else.
use trust.Prelude.{
  ℕ, Option-cases, ◌≡◌, ◌⊎◌, inl, inr, refl, Option, none, some, [], ◌∷◌, Text, arith,
}
use trust.AppError.{ForeignError}
use trust.Model.{Transport, tcp, udp}
use trust.Control.Request.{
  Request, no_request, about, connections, ping, proxies, services, quit, start, stop,
}
use trust.Control.Response.{Json, Response, Proxy}
use trust.Control.Response.Values.{IsCodec}
use trust.Client.Controller.Start.{ReadsBack}
use trust.Tests.Samples.{
  foreign, json, Value, proxy_value, array_value, list_of-values_of, text_value, service_value,
  other_value,
}

abbrev request_code : Request → Option (ℕ × ℕ)
request_code (start (n ∷ []) local_port) = some (n, local_port)
request_code _ = none

request_code-inverse :
    (r : Request) (x : ℕ × ℕ) → request_code r ≡ some x → start (x.0 ∷ []) x.1 ≡ r
request_code-inverse (start [] p) x h = cc
request_code-inverse (start (n ∷ []) p) x h = ground arith
request_code-inverse (start (n ∷ o ∷ t) p) x h = cc
request_code-inverse no_request x h = cc
request_code-inverse about x h = cc
request_code-inverse connections x h = cc
request_code-inverse ping x h = cc
request_code-inverse proxies x h = cc
request_code-inverse services x h = cc
request_code-inverse quit x h = cc
request_code-inverse (stop t) x h = cc

abbrev proxy_of : ℕ → ℕ → ℕ → ℕ → ℕ → Proxy
proxy_of id m h gateway_port client_port = record {
  service = record { id = id; name = m ∷ []; transport = tcp; address = none };
  gateway_host = some (h ∷ []);
  gateway_port = gateway_port;
  client_port = some client_port;
}

abbrev fields_code : Text → Transport → Option Text → Option Text → Option ℕ → Option (ℕ × ℕ × ℕ)
fields_code (m ∷ []) tcp none (some (h ∷ [])) (some client_port) = some (m, h, client_port)
fields_code _ _ _ _ _ = none

fields_code-inverse :
    (id gateway_port : ℕ) (name : Text) (transport : Transport) (address host : Option Text)
    (client_port : Option ℕ) (x : ℕ × ℕ × ℕ)
    → fields_code name transport address host client_port ≡ some x
    → proxy_of id x.0 x.1 gateway_port x.2 ≡ record {
      service = record { id = id; name = name; transport = transport; address = address };
      gateway_host = host;
      gateway_port = gateway_port;
      client_port = client_port;
    }
fields_code-inverse i g [] t a h c x e = cc
fields_code-inverse i g (m ∷ n ∷ s) t a h c x e = cc
fields_code-inverse i g (m ∷ []) udp a h c x e = cc
fields_code-inverse i g (m ∷ []) tcp (some a) h c x e = cc
fields_code-inverse i g (m ∷ []) tcp none none c x e = cc
fields_code-inverse i g (m ∷ []) tcp none (some []) c x e = cc
fields_code-inverse i g (m ∷ []) tcp none (some (h ∷ j ∷ s)) c x e = cc
fields_code-inverse i g (m ∷ []) tcp none (some (h ∷ [])) none x e = cc
fields_code-inverse i g (m ∷ []) tcp none (some (h ∷ [])) (some c) x e = ground arith

abbrev response_code : ℕ → Request → Proxy → Text ⊎ ForeignError
response_code code r p = elim (request_code r) [
  | none ↦ inr foreign
  | some x ↦
      elim (fields_code p.service.name p.service.transport p.service.address p.gateway_host
        p.client_port) [
          | none ↦ inr foreign
          | some y ↦ inl (code ∷ x.0 ∷ x.1 ∷ p.service.id ∷ y.0 ∷ y.1 ∷ p.gateway_port ∷ y.2 ∷ [])
        ]
]

abbrev code_of : ℕ → Option Text → Request → Option Value → Text ⊎ ForeignError
code_of code none r (some (proxy_value p)) = response_code code r p
code_of _ _ _ _ = inr foreign

abbrev read_code : Text → Response Value ⊎ ForeignError
read_code (code ∷ n ∷ local_port ∷ id ∷ m ∷ h ∷ gateway_port ∷ client_port ∷ []) = inl (record {
  code = code;
  message = none;
  request = start (n ∷ []) local_port;
  data_value = some (proxy_value (proxy_of id m h gateway_port client_port));
})
read_code _ = inr foreign

response_code-inverse :
    (code : ℕ) (r : Request) (p : Proxy) (t : Text)
    → response_code code r p ≡ inl t
    → read_code t
      ≡ inl (record { code = code; message = none; request = r; data_value = some (proxy_value p) })
response_code-inverse code r p t e = elim (Option-cases (request_code r)) [
  | inl q ↦ ground (arith, q, e)
  | inr (x, q) ↦
      elim (Option-cases (
        fields_code p.service.name p.service.transport p.service.address p.gateway_host
          p.client_port)) [
            | inl w ↦ ground (arith, q, w, e)
            | inr (y, w) ↦ ground (
              arith,
              q,
              w,
              e,
              request_code-inverse r x q,
              fields_code-inverse p.service.id p.gateway_port p.service.name p.service.transport
                  p.service.address p.gateway_host p.client_port y w,
            )
          ]
]

code_of-inverse :
    (code : ℕ) (message : Option Text) (r : Request) (v : Option Value) (t : Text)
    → code_of code message r v ≡ inl t
    → read_code t ≡ inl (record { code = code; message = message; request = r; data_value = v })
code_of-inverse code (some m) r v t e = cc
code_of-inverse code none r none t e = cc
code_of-inverse code none r (some (text_value s)) t e = cc
code_of-inverse code none r (some (array_value vs)) t e = cc
code_of-inverse code none r (some (service_value s)) t e = cc
code_of-inverse code none r (some other_value) t e = cc
code_of-inverse code none r (some (proxy_value p)) t e = response_code-inverse code r p t e

abbrev proxy_from : Value → Proxy ⊎ ForeignError
proxy_from (proxy_value p) = inl p
proxy_from _ = inr foreign

abbrev pub wire : Json
wire = record json {
  proxy = record { to_value = λ p. inl (proxy_value p); from_value = proxy_from };
  to_string = λ r. code_of r.code r.message r.request r.data_value;
  from_str = read_code;
}

pub wire-IsCodec : IsCodec wire wire.proxy
wire-IsCodec = record {
  from_to = λ a v h. ground arith;
  no_array = λ a v h. ground arith;
  array_items = λ vs. rw (list_of-values_of vs) refl;
}

pub wire-ReadsBack : ReadsBack wire
wire-ReadsBack r p v t w d e = code_of-inverse r.code r.message r.request r.data_value t e
