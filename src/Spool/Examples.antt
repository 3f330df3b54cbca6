-- ===== src/Spool/Examples.antt =====
-- crates/mai-probe/src/spool.rs: tests, and the theorems at concrete inputs.
use multi_ai.Base.{ℕ, ◌≡◌, refl, List, [], ◌∷◌, ◌+◌, ◌*◌, Text, text, Result, ok, err}
use multi_ai.Protocol.Codec.{lines_from}
use multi_ai.Spool.{
  Files, make_cursor, split_cursor, read_after, read_days, read_day, read_lines, read_line, day_ms,
}

-- Every line is a record, but the empty one.
abbrev parse : List ℕ → Result (List ℕ) Text
parse [] = err (text "empty")
parse (c ∷ s) = ok (c ∷ s)

-- Yesterday's file with two lines, and today's with one and the beginning of another.
abbrev files : Files
files = (1, 97 ∷ 10 ∷ 98 ∷ 10 ∷ []) ∷ (2, 10 ∷ 99 ∷ 10 ∷ 100 ∷ []) ∷ []

-- Past yesterday's first line, after the grace of ten seconds.
read_rest : read_after parse files (make_cursor 1 2) (2 * day_ms + 10_000) ≡ record {
  records = (make_cursor 1 4, 98 ∷ []) ∷ (make_cursor 2 3, 99 ∷ []) ∷ [];
  bad_lines = 1;
  end_cursor = make_cursor 2 3;
}
unfolding read_after split_cursor make_cursor read_days read_day read_lines read_line lines_from
read_rest = refl
