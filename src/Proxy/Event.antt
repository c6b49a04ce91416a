-- ===== src/Proxy/Event.antt =====
-- crates/common/src/proxy/event.rs and proxy_base.rs: the key by which a proxy is known, and the
-- messages about proxies. A socket address is known by the text that `{:?}` prints for it. That text
-- holds no quote and no backslash, so `{:?}` of the text puts quotes round it and escapes nothing.
pub mod Unique
use trust.Prelude.{Option, none, some, List, ℕ, [], ◌∷◌, ◌++◌, Text, codes}

pub data ProxyType : Type 0 where
  channel_and_tcp tcp_and_tcp tcp_and_udp : ProxyType

-- `ProxyType::key_value`.
unfoldable pub type_key : ProxyType → Text
type_key channel_and_tcp = codes "C&T"
type_key tcp_and_tcp = codes "T&T"
type_key tcp_and_udp = codes "T&U"

abbrev pub quote : ℕ
quote = b'"'

abbrev pub addr_or : Text → Option Text → Text
addr_or missing none = missing
addr_or missing (some addr) = addr

-- `ProxyEvent::key_value`.
unfoldable pub key_value : ProxyType → Option Text → Option Text → Text
unfolding type_key
key_value proxy_type socket_addr1 socket_addr2 =
    type_key proxy_type
    ++ b':'
      ∷ quote
      ∷ (addr_or (codes "client_addr_NA") socket_addr1
          ++ quote ∷ b',' ∷ quote ∷ (addr_or (codes "server_addr_NA") socket_addr2 ++ quote ∷ []))

-- `ProxyEvent`: the key of a closed proxy, or a datagram with its peer.
pub data ProxyEvent : Type 0 where
  closed : Text → ProxyEvent
  message : Text → Text → List ℕ → ProxyEvent
