-- ===== src/Control/Response/Address.antt =====
-- A service that is sent to the client and read there again.
use trust.Prelude.{
  ℕ, suc, ◌-◌, ◌≡◌, ◌≢◌, ◌<◌, ap, ◌∙◌, refl, Bool-cases, inl, inr, false, some, [], ◌∷◌, ◌++◌, List,
  Text, arith, ◌==◌, if◌then◌else◌, length,
}
use trust.Text.{colon, show, split, u16_bound, Without}
use trust.Text.Decimal.{show-Without, parse_uint-show}
use trust.Text.Split.{split-Without, split-append, count, length-split, count-append}
use trust.Model.{Service}
use trust.Control.Response.{of_model, to_model, split_address, host_port}
use trust.Control.Request.{is_empty}

-- A text in which the character is counted zero times is without it.
Without-of_count : (c : ℕ) (s : Text) → count c s ≡ 0 → Without c s
unfolding count
Without-of_count c [] h = tt
Without-of_count c (x ∷ s) h = ground (arith, Without-of_count c s)

address_parts :
    (host : Text) (port : ℕ)
    → count colon host ≡ 0
    → split colon (host ++ colon ∷ show port) ≡ host ∷ show port ∷ []
address_parts host port h =
    rw (split-append colon host (show port) (Without-of_count colon host h))
      (ap (λ (ws : List Text). host ∷ ws) (split-Without colon (show port) (show-Without port)))

count_of_Without : (s : Text) → Without colon s → count colon s ≡ 0
unfolding count
count_of_Without [] h = refl
count_of_Without (x ∷ s) h = ground (arith, count_of_Without s h.1)

parts_long :
    (host : Text) (port : ℕ)
    → length (split colon (host ++ colon ∷ show port)) ≡ suc (suc (count colon host))
unfolding count
parts_long host port =
    length-split colon (host ++ colon ∷ show port)
    ∙ omega (
      arith,
      count-append colon host (colon ∷ show port),
      count_of_Without (show port) (show-Without port),
    )

host_port_long : (ws : List Text) (n : ℕ) → length ws ≡ suc (suc (suc n)) → host_port ws ≡ ([], 0)
host_port_long [] n h = refl
host_port_long (a ∷ []) n h = refl
host_port_long (a ∷ b ∷ []) n h = absurd (omega arith)
host_port_long (a ∷ b ∷ c ∷ ws) n h = refl

split_address-parts :
    (host : Text) (port : ℕ)
    → port < u16_bound
    → split_address (some (host ++ colon ∷ show port))
      ≡ (if count colon host == 0 then (host, port) else ([], 0))
split_address-parts host port fits = elim (Bool-cases (count colon host == 0)) [
  | inl e ↦ rw (e, address_parts host port (ground arith), parse_uint-show u16_bound port fits)
  | inr e ↦ rw e (
      host_port_long (split colon (host ++ colon ∷ show port)) (count colon host - 1)
        (ground (arith, parts_long host port)))
]

is_empty_of_ne : (s : Text) → s ≢ [] → is_empty s ≡ false
is_empty_of_ne [] h = absurd (h refl)
is_empty_of_ne (c ∷ s) h = refl

-- A service with a host and a `u16` port is, once turned into a response and back, as it was if its
-- host has no colon; otherwise the host and the port are lost.
pub to_model-of_model :
    (s : Service)
    → s.host ≢ []
    → s.port < u16_bound
    → to_model (of_model s)
      ≡ (if count colon s.host == 0 then s else record s { host = []; port = 0 })
unfolding to_model of_model
to_model-of_model s nonempty fits =
    ground (arith, is_empty_of_ne s.host nonempty, split_address-parts s.host s.port fits)
