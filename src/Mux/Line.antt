-- ===== src/Mux/Line.antt =====
-- internal/tunnel/mux.go: the receiving end of one stream, its read loop and its reader in any order.
use valyrium.Base.{Bool, List, [], ℕ, ◌++◌, ◌∷◌}
use valyrium.Mux.Conn.{Conn}
use valyrium.Mux.ReadLoop.{Round, blocks, goes_on, panics, read_round, returns}
use valyrium.Mux.Stream.{Case, ReadResult, bytes, end_of_stream, failed, read_on, waits}

-- The receiving end, the bytes that are on their way to it, and what its reader took so far.
pub record Line : Type 0 where
  pub conn : Conn
  pub incoming : List ℕ
  pub received : List ℕ

-- What happens next: the read loop takes a frame, or the reader calls `Read` with room for n bytes.
pub data Move : Type 0 where
  arrives : Bool → Move
  reads_up_to : ℕ → Case → Move

-- A round that blocks in `deliver` is tried again: its frame counts as still on its way.
abbrev pub after_round : Line → Round × List ℕ → Line
after_round l (goes_on c, rest) = record l { conn = c; incoming = rest }
after_round l (returns c, rest) = record l { conn = c; incoming = rest }
after_round l (blocks, rest) = l
after_round l (panics, rest) = l

abbrev pub after_read : Line → Conn × ReadResult → Line
after_read l (c, bytes b) = record l { conn = c; received = l.received ++ b }
after_read l (c, end_of_stream) = record l { conn = c }
after_read l (c, failed e) = record l { conn = c }
after_read l (c, waits) = record l { conn = c }

-- `ReadFrame` waits while nothing is on its way.
unfoldable pub receive : Line → Bool → List ℕ → Line
receive l send [] = l
receive l send (b ∷ bs) = after_round l (read_round l.conn (b ∷ bs) send)

unfoldable pub move : ℕ → Line → Move → Line
move q l (arrives send) = receive l send l.incoming
move q l (reads_up_to n choice) = after_read l (read_on l.conn q n choice)

unfoldable pub moves : ℕ → Line → List Move → Line
moves q l [] = l
moves q l (m ∷ ms) = moves q (move q l m) ms
