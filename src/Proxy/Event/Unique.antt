-- ===== src/Proxy/Event/Unique.antt =====
-- Two proxies with the same key are the same.
use trust.Prelude.{◌≡◌, ◌≢◌, refl, Option, none, some, [], ◌∷◌, ◌++◌, Text, codes, arith, ap}
use trust.Text.{Without}
use trust.Proxy.Event.{
  ProxyType, channel_and_tcp, tcp_and_tcp, tcp_and_udp, type_key, quote, addr_or, key_value,
}

-- A text up to the first quote is determined.
upto_quote :
    (s t x y : Text)
    → Without quote s
    → Without quote t
    → s ++ quote ∷ x ≡ t ++ quote ∷ y
    → (s ≡ t) × (x ≡ y)
upto_quote [] [] x y hs ht e = ground arith
upto_quote [] (b ∷ t) x y hs ht e = absurd (ground arith)
upto_quote (a ∷ s) [] x y hs ht e = absurd (ground arith)
upto_quote (a ∷ s) (b ∷ t) x y hs ht e = ground (arith, upto_quote s t x y hs.1 ht.1 (ground arith))

-- An address as it is printed: no quote, and not the word for a missing one.
abbrev pub IsAddr : Text → Option Text → Type 0
IsAddr missing none = Unit
IsAddr missing (some addr) = Without quote addr × (addr ≢ missing)

addr_or-Without :
    (missing : Text) (o : Option Text)
    → Without quote missing
    → IsAddr missing o
    → Without quote (addr_or missing o)
addr_or-Without missing none h a = h
addr_or-Without missing (some addr) h a = a.0

addr_or-injective :
    (missing : Text) (o p : Option Text)
    → IsAddr missing o
    → IsAddr missing p
    → addr_or missing o ≡ addr_or missing p
    → o ≡ p
addr_or-injective missing none none a b e = refl
addr_or-injective missing none (some t) a b e = ground arith
addr_or-injective missing (some s) none a b e = ground arith
addr_or-injective missing (some s) (some t) a b e = ap some e

upto_type : (q r : ProxyType) (x y : Text) → type_key q ++ x ≡ type_key r ++ y → (q ≡ r) × (x ≡ y)
unfolding type_key
upto_type channel_and_tcp channel_and_tcp x y e = ground arith
upto_type channel_and_tcp tcp_and_tcp x y e = ground arith
upto_type channel_and_tcp tcp_and_udp x y e = ground arith
upto_type tcp_and_tcp channel_and_tcp x y e = ground arith
upto_type tcp_and_tcp tcp_and_tcp x y e = ground arith
upto_type tcp_and_tcp tcp_and_udp x y e = ground arith
upto_type tcp_and_udp channel_and_tcp x y e = ground arith
upto_type tcp_and_udp tcp_and_tcp x y e = ground arith
upto_type tcp_and_udp tcp_and_udp x y e = ground arith

abbrev client_missing : Text
client_missing = codes "client_addr_NA"

abbrev server_missing : Text
server_missing = codes "server_addr_NA"

abbrev pub IsClientAddr : Option Text → Type 0
IsClientAddr = IsAddr (codes "client_addr_NA")

abbrev pub IsServerAddr : Option Text → Type 0
IsServerAddr = IsAddr (codes "server_addr_NA")

-- Where addresses have no quotes and are not the words for a missing address, different proxies (by type, client address or server address) never have
-- the same key.
pub key_value-injective :
    (q r : ProxyType) (a b c d : Option Text)
    → IsClientAddr a
    → IsServerAddr b
    → IsClientAddr c
    → IsServerAddr d
    → key_value q a b ≡ key_value r c d
    → (q ≡ r) × (a ≡ c) × (b ≡ d)
unfolding key_value
key_value-injective q r a b c d ha hb hc hd e =
    let (same_type, e1) = upto_type q r _ _ e in
    let (first, e2) =
      upto_quote (addr_or client_missing a) (addr_or client_missing c)
        (b',' ∷ quote ∷ (addr_or server_missing b ++ quote ∷ []))
        (b',' ∷ quote ∷ (addr_or server_missing d ++ quote ∷ []))
        (addr_or-Without client_missing a (ground arith) ha)
        (addr_or-Without client_missing c (ground arith) hc) (ground arith) in
    let (second, e3) =
      upto_quote (addr_or server_missing b) (addr_or server_missing d) [] []
        (addr_or-Without server_missing b (ground arith) hb)
        (addr_or-Without server_missing d (ground arith) hd) (ground arith) in
    (
      same_type,
      addr_or-injective client_missing a c ha hc first,
      addr_or-injective server_missing b d hb hd second,
    )
