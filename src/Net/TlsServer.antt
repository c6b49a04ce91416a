-- ===== src/Net/TlsServer.antt =====
-- crates/common/src/net/tls_server/server_std.rs: how the listener takes a connection over TLS. The
-- rest of the server is the code of Net.Server. The TLS library is an argument. No other thread touches
-- the visitor here meanwhile.
use trust.Prelude.{
  ◌⊎◌, inl, inr, Option, none, some, List, [], ◌∷◌, ◌++◌, Text, codes, if◌then◌else◌,
}
use trust.AppError.{ForeignError, gen_with_msg_and_err, would_block}
use trust.Result.{Result, ok, err, panic, ◌>>=◌}
use trust.Net.Server.{Server, ServerVisitor, accept_stream, quoted, with_visitor}

-- What a turn of the loop that reads the client's hello gives: reading fails, the hello is not there
-- yet, it is none, or it is there.
pub data HelloRead (A : Type 0) : Type 0 where
  read_fails : HelloRead A
  hello_waits : HelloRead A
  hello_fails : ForeignError → HelloRead A
  hello_read : A → HelloRead A

-- A connection that was accepted: its peer, what the loop reads, and how the handshake goes on with
-- the configuration `G` to the TLS stream `S`.
pub record Handshake (A G S : Type 0) : Type 0 where
  pub peer_addr : Text
  pub hello : List (HelloRead A)
  pub into_connection : A → G → S ⊎ ForeignError
  pub complete_io : Option ForeignError
  pub set_nonblocking : Option ForeignError

pub data TlsAccepting (A G S : Type 0) : Type 0 where
  waits : TlsAccepting A G S
  accept_fails : ForeignError → TlsAccepting A G S
  handshakes : Handshake A G S → TlsAccepting A G S

-- The message names both addresses.
abbrev pub addrs_msg : Text → Text → Text → Text
addrs_msg msg listen_addr peer_addr =
    msg ++ (codes ": server_addr=" ++ (quoted listen_addr ++ (codes ", peer_addr=" ++ peer_addr)))

abbrev pub or_failed : Option ForeignError → Text → Result (Unit {0})
or_failed none msg = ok tt
or_failed (some e) msg = err (gen_with_msg_and_err msg e)

abbrev pub connected : {S : Type 0} → S ⊎ ForeignError → Text → Result S
connected (inl stream) msg = ok stream
connected (inr e) msg = err (gen_with_msg_and_err msg e)

-- The loop that reads the client's hello: nothing where it still runs at the end of the turns.
unfoldable pub read_hello : {A : Type 0} → Text → List (HelloRead A) → Option (Result A)
read_hello msg [] = none
read_hello msg (read_fails ∷ turns) = some panic
read_hello msg (hello_waits ∷ turns) = read_hello msg turns
read_hello msg (hello_fails e ∷ turns) = some (err (gen_with_msg_and_err msg e))
read_hello msg (hello_read accepted ∷ turns) = some (ok accepted)

module _ {A G S : Type 0} where
  -- From the configuration to the TLS stream, whose socket does not block.
  unfoldable pub secure : Handshake A G S → Text → A → G → Result S
  secure h listen_addr accepted config = do
    stream ←
        connected (h.into_connection accepted config)
          (addrs_msg (codes "Error creating TLS server connection") listen_addr h.peer_addr)
    done ←
        or_failed h.complete_io
          (addrs_msg (codes "Error completing TLS server connection") listen_addr h.peer_addr)
    free ←
        or_failed h.set_nonblocking
          (addrs_msg (codes "Failed making socket non-blocking") listen_addr h.peer_addr)
    ok stream

module _ {V A G S C : Type 0} where
  module _ (visitor : ServerVisitor V S C) (on_tls_handshaking : A → V → Result G × V) where
    -- What follows on the client's hello.
    unfoldable pub after_hello : Handshake A G S → A → Server V → Result (Unit {0}) × Server V
    unfolding secure
    after_hello h accepted s =
        let config = on_tls_handshaking accepted s.visitor in
        let t = with_visitor config.1 s in
        elim (config.0 >>= secure h s.listen_addr accepted) [
          | ok stream ↦ accept_stream visitor (λ v. v) stream t
          | err e ↦ (err e, t)
          | panic ↦ (panic, t)
        ]

    -- `accept`: no result where it still waits for the client's hello.
    unfoldable pub accept_tls :
        TlsAccepting A G S → Server V → Option (Result (Unit {0})) × Server V
    unfolding read_hello after_hello
    accept_tls a s =
        if s.has_listener
        then (elim a [
          | waits ↦ (some (err would_block), s)
          | accept_fails e ↦ (
            some (
                err (
                  gen_with_msg_and_err
                    (codes "Error accepting connection: server_addr=" ++ quoted s.listen_addr) e)),
            s,
          )
          | handshakes h ↦
              (elim (read_hello
                (addrs_msg (codes "Error reading TLS client hello") s.listen_addr h.peer_addr)
                h.hello) [
                  | none ↦ (none, s)
                  | some panic ↦ (some panic, s)
                  | some (err e) ↦ (some (err e), s)
                  | some (ok accepted) ↦
                      let done = after_hello h accepted s in (some done.0, done.1)
                ])
        ])
        else (some panic, s)
