-- ===== src/Spool/Resume.antt =====
-- crates/mai-probe/src/spool.rs: what `read_after` returns, as a filter over all complete lines.
use multi_ai.Base.{ℕ, List, [], ◌∷◌, Text, Result}
use multi_ai.Spool.{ReadResult, join, nothing, read_line}
use multi_ai.Spool.Due.{Entry}

module _ {ℓ} {R : Type ℓ} (from_slice : List ℕ → Result R Text) where
  -- What reading some lines gives.
  abbrev pub collect : ℕ → List Entry → ReadResult R
  collect end [] = nothing end
  collect end (e ∷ es) = join (read_line from_slice e.at e.line) (collect e.at es)
