-- ===== src/Restore/Files.antt =====
-- crates/restore/src/journal.rs: the file that a journal is written to.
use undelete_master.Base.{ℕ, Option, none, some, List, [], ◌∷◌, ◌++◌, take}

-- What a call of the file does; a write that fails may leave the first bytes behind.
pub data Call : Type 0 where
  succeeds : Call
  fails : (kind written : ℕ) → Call

pub record Sink : Type 0 where
  pub written : List ℕ
  pub calls : List Call

-- A coming call, and the calls behind it; a file with no more to say succeeds.
unfoldable pub next_call : List Call → Call × List Call
next_call [] = (Call.succeeds, [])
next_call (call ∷ calls) = (call, calls)

unfoldable pub write_by : List ℕ → List ℕ → Call × List Call → Option ℕ × Sink
write_by bytes written (Call.succeeds, calls) =
    (none, record { written = written ++ bytes; calls = calls })
write_by bytes written (Call.fails kind n, calls) =
    (some kind, record { written = written ++ take n bytes; calls = calls })

unfoldable pub write_all : List ℕ → Sink → Option ℕ × Sink
write_all bytes sink = write_by bytes sink.written (next_call sink.calls)

unfoldable pub settle_by : List ℕ → Call × List Call → Option ℕ × Sink
settle_by written (Call.succeeds, calls) = (none, record { written = written; calls = calls })
settle_by written (Call.fails kind n, calls) =
    (some kind, record { written = written; calls = calls })

-- `flush` and `sync_all`
unfoldable pub settle : Sink → Option ℕ × Sink
settle sink = settle_by sink.written (next_call sink.calls)
