-- ===== src/Masking.antt =====
-- utils/runMigrations.go: the writer that masks passwords in the output of the migrations. The
-- tool itself is the list of the pieces that it writes.
pub mod Chunks
pub mod Credentials
pub mod Pieces
pub mod Secrets
pub mod Hidden
use prompt_sdk.Prelude.{
  ℕ, Bool, true, false, List, [], ◌∷◌, ◌++◌, reverse, Text, is_empty, ◌==◌, if◌then◌else◌,
}
use prompt_sdk.Masking.Credentials.{sanitize_database_url}

-- `out` is what was forwarded so far.use prompt_sdk.Masking.Credentials.{sanitize_database_url}

pub record MaskingWriter : Type 0 where
  pub out : Text
  pub pending : Text

abbrev pub new_writer : MaskingWriter
new_writer = record { out = []; pending = [] }

unfoldable pub emit : Text → Text → Text
emit out line = out ++ sanitize_database_url line

-- the loop of Write, byte by byte, with the line so far, its last byte first
unfoldable pub drain : Text → Text → Text → MaskingWriter
drain out line [] = record { out = out; pending = reverse line }
drain out line (c ∷ s) = elim (c == 10) [
  | true ↦ drain (emit out (reverse (c ∷ line))) [] s
  | false ↦ drain out (c ∷ line) s
]

unfoldable pub write : MaskingWriter → Text → MaskingWriter
unfolding drain emit
write w p = drain w.out [] (w.pending ++ p)

unfoldable pub flush : MaskingWriter → MaskingWriter
unfolding emit
flush w = if is_empty w.pending then w else record { out = emit w.out w.pending; pending = [] }

-- RunMigrations on one stream: what the tool writes, in its pieces, and the deferred flush
unfoldable pub write_all : List Text → MaskingWriter → MaskingWriter
write_all [] w = w
write_all (p ∷ ps) w = write_all ps (write w p)
