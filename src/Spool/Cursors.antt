-- ===== src/Spool/Cursors.antt =====
-- crates/mai-probe/src/spool.rs: cursors.
use multi_ai.Base.{ℕ, ◌+◌, ◌*◌, ◌<◌, ◌≡◌, arith}
use multi_ai.Spool.{make_cursor, split_cursor, offset_range}

-- The days and the offsets that a cursor can hold.
abbrev pub day_range : ℕ
day_range = 16_777_216

pub make_cursor_value :
    (day off : ℕ)
    → day < day_range
    → off < offset_range
    → make_cursor day off ≡ day * offset_range + off
unfolding make_cursor
make_cursor_value day off d o = omega arith

-- A cursor gives back its day and its offset, as long as they fit into 24 and 40 bits.
pub split-make_cursor :
    (day off : ℕ)
    → day < day_range
    → off < offset_range
    → split_cursor (make_cursor day off) ≡ (day, off)
unfolding split_cursor
split-make_cursor day off d o = rw (make_cursor_value day off d o) (ground arith)
