-- ===== src/Net/Connection/Content.antt =====
-- What a connection reads and writes.
use trust.Prelude.{
  ℕ, suc, ◌≡◌, ◌∙◌, false, List, [], ◌∷◌, ◌++◌, map, arith, length, take, All, append_assoc, ◌<◌,
}
use trust.Result.{ok}
use trust.Gateway.Controller.{write}
use trust.Net.Connection.{
  Connection, ConnectionVisitor, Read, got, stops, would_block, read_chunks, read_block_size,
  handle_events, write_content, write_tcp_stream, on_write_error, handle_event,
}

abbrev pub concat : List (List ℕ) → List ℕ
concat [] = []
concat (bytes ∷ rest) = bytes ++ concat rest

-- Blocks that are full are gathered in order, with the first that is not full behind them; the reads
-- after that are left for the next call.
pub read_chunks-full :
    (full : List (List ℕ)) (last : List ℕ) (reads : List Read)
    → All (λ bytes. length bytes ≡ read_block_size) full
    → length last < read_block_size
    → read_chunks (map got full ++ got last ∷ reads)
      ≡ record { buffer = ok (concat full ++ last); left = reads; at_end = false }
unfolding read_chunks
read_chunks-full [] last reads h l = ground arith
read_chunks-full (bytes ∷ full) last reads h l =
    ground (arith, read_chunks-full full last reads h.1 l, append_assoc bytes (concat full) last)

-- A write that would block after some bytes is put behind the writes that wait, as a whole: the peer
-- gets its first bytes, then the next write, and then all of it. (Here two writes wait, and writing
-- blocks once.)
pub handle_events-reorders :
    {S : Type 0} (visitor : ConnectionVisitor S) (c : Connection S) (n : ℕ) (a b : List ℕ)
    (fuel : ℕ)
    → (handle_events visitor (suc (suc (suc (suc fuel)))) (record c {
      event_channel = write a ∷ write b ∷ [];
      outgoing = stops n would_block ∷ [];
    })).1.written
      ≡ c.written ++ (take n a ++ (b ++ a))
unfolding handle_events handle_event write_content write_tcp_stream on_write_error
handle_events-reorders visitor c n a b fuel =
    append_assoc (c.written ++ take n a) b a ∙ append_assoc c.written (take n a) (b ++ a)
