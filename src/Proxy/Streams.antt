-- ===== src/Proxy/Streams.antt =====
-- crates/common/src/net/stream_utils.rs: reading and writing sockets without waiting. What the
-- stream will do is part of its state.
use trust.Prelude.{
  ℕ, Option, none, some, Text, List, [], ◌∷◌, ◌++◌, codes, ltb, length, take, if◌then◌else◌,
}
use trust.AppError.{AppError, ForeignError, gen_with_msg_and_err, would_block, stream_eof}
use trust.Result.{Result, ok, err, ◌>>=◌}

-- The kinds of `io::Error` that are told apart.
pub data IoError : Type 0 where
  blocked unexpected_eof broken_pipe not_connected : IoError
  other_kind : ForeignError → IoError

-- What one call of `read` gives.
pub data StreamRead : Type 0 where
  bytes : List ℕ → StreamRead
  read_fails : IoError → StreamRead

-- What one call of `write_all` gives: all is written, or it stops after some bytes.
pub data StreamWrite : Type 0 where
  writes : StreamWrite
  write_fails : ℕ → IoError → StreamWrite

-- A stream: what its next reads and writes give (once the list is used up, there is nothing to read,
-- and writing succeeds), and what was written.
pub record Stream : Type 0 where
  pub incoming : List StreamRead
  pub outgoing : List StreamWrite
  pub written : List ℕ

abbrev pub tcp_read_block_size : ℕ
tcp_read_block_size = 1024

-- The loop of `read_tcp_stream`: the bytes, and the reads that are left.
unfoldable pub read_blocks : List StreamRead → Result (List ℕ) × List StreamRead
read_blocks [] = (ok [], [])
read_blocks (read_fails blocked ∷ reads) = (ok [], reads)
read_blocks (read_fails unexpected_eof ∷ reads) = (err stream_eof, reads)
read_blocks (read_fails broken_pipe ∷ reads) = (err stream_eof, reads)
read_blocks (read_fails not_connected ∷ reads) = (err stream_eof, reads)
read_blocks (read_fails (other_kind e) ∷ reads) =
    (err (gen_with_msg_and_err (codes "Error reading from stream") e), reads)
read_blocks (bytes b ∷ reads) =
    let rest = read_blocks reads in
    if ltb (length b) tcp_read_block_size
    then (ok b, reads)
    else (rest.0 >>= λ more. ok (b ++ more), rest.1)

-- `read_tcp_stream`.
unfoldable pub read_tcp_stream : Stream → Result (List ℕ) × Stream
unfolding read_blocks
read_tcp_stream s = let r = read_blocks s.incoming in (r.0, record s { incoming = r.1 })

abbrev pub error_of_write : IoError → AppError
error_of_write blocked = would_block
error_of_write unexpected_eof = stream_eof
error_of_write broken_pipe = stream_eof
error_of_write not_connected = stream_eof
error_of_write (other_kind e) = gen_with_msg_and_err (codes "Error writing to stream") e

-- `write_tcp_stream`.
unfoldable pub write_tcp_stream : List ℕ → Stream → Result (Unit {0}) × Stream
write_tcp_stream buffer s = elim s.outgoing [
  | [] ↦ (ok tt, record s { written = s.written ++ buffer })
  | writes ∷ outgoing ↦ (ok tt, record s { written = s.written ++ buffer; outgoing = outgoing })
  | write_fails n e ∷ outgoing ↦ (
    err (error_of_write e),
    record s { written = s.written ++ take n buffer; outgoing = outgoing },
  )
]

-- What a UDP socket's next call of `recv_from` gives.
pub data Datagram : Type 0 where
  received : Text → List ℕ → Datagram
  recv_fails : IoError → Datagram

-- The error of an operation on a socket that prints as `socket`.
abbrev pub socket_error : Text → Text → IoError → AppError
socket_error msg socket (other_kind e) =
    gen_with_msg_and_err (msg ++ (codes " udp socket: socket=" ++ socket)) e
socket_error msg socket blocked = would_block
socket_error msg socket unexpected_eof = stream_eof
socket_error msg socket broken_pipe = stream_eof
socket_error msg socket not_connected = stream_eof

-- `read_mio_udp_socket`.
unfoldable pub read_mio_udp_socket : Text → Datagram → Result (Text × List ℕ)
read_mio_udp_socket socket (received addr content) = ok (addr, content)
read_mio_udp_socket socket (recv_fails e) = err (socket_error (codes "Error reading from") socket e)

-- `write_mio_udp_socket`: the datagrams that were sent, with this one if it is sent.
unfoldable pub write_mio_udp_socket :
    Text → Option IoError → List ℕ → List (List ℕ) → Result (Unit {0}) × List (List ℕ)
write_mio_udp_socket socket none buffer sent = (ok tt, sent ++ buffer ∷ [])
write_mio_udp_socket socket (some e) buffer sent =
    (err (socket_error (codes "Error writing to") socket e), sent)
