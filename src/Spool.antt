-- ===== src/Spool.antt =====
-- crates/mai-probe/src/spool.rs: the append-only log of hook events. The directory is the list of
-- its day files, in the order of the days, and the acknowledged cursors by file name. serde_json is a
-- parameter; file operations are taken to succeed. Numbers are not wrapped except in a cursor: a
-- cursor has 64 bits.
pub mod Cursors
pub mod Lines
pub mod Due
pub mod Resume
mod Examples
use multi_ai.Base.{
  ℕ, suc, ◌+◌, ◌*◌, ◌/◌, ◌%◌, Bool, true, false, not, ◌&&◌, List, [], ◌∷◌, ◌++◌, map, Text, text,
  decimal, Result, ok, err, length, drop, ltb, nat_beq, if◌then◌else◌,
}
use multi_ai.Protocol.{sanitize_client}
use multi_ai.Protocol.Codec.{lines_from}

abbrev pub day_ms : ℕ
day_ms = 86_400_000

abbrev pub day_grace_ms : ℕ
day_grace_ms = 10_000

-- `1 << OFFSET_BITS`, and the number of u64 values.
abbrev pub offset_range : ℕ
offset_range = 1_099_511_627_776

abbrev pub word_range : ℕ
word_range = 18_446_744_073_709_551_616

-- The shift leaves the low bits clear, so that the `|` adds them.
unfoldable pub make_cursor : ℕ → ℕ → ℕ
make_cursor day end_offset = day * offset_range % word_range + end_offset % offset_range

unfoldable pub split_cursor : ℕ → ℕ × ℕ
split_cursor cursor = (cursor / offset_range, cursor % offset_range)

-- One hook invocation; the payload is any JSON value.
pub record SpoolRecord {ℓ} (Value : Type ℓ) : Type ℓ where
  pub ts_ms : ℕ
  pub agent : Text
  pub session : Text
  pub pane_id : ℕ
  pub payload : Value

pub record ReadResult {ℓ} (R : Type ℓ) : Type ℓ where
  pub records : List (ℕ × R)
  pub bad_lines : ℕ
  pub end_cursor : ℕ

-- `ack_file` of `Spool::for_client` and of `Spool::new`.
unfoldable pub ack_file : Text → Text
ack_file client = elim (sanitize_client client) [
  | [] ↦ text "ack"
  | c ∷ cs ↦ text "ack-" ++ (c ∷ cs)
]

-- A day file: its day and its bytes.
abbrev pub Files : Type 0
Files = List (ℕ × List ℕ)

-- Writing at the end of a day's file, which is created if it is not there.
unfoldable pub append_bytes : ℕ → List ℕ → Files → Files
append_bytes day bytes [] = (day, bytes) ∷ []
append_bytes day bytes ((d, b) ∷ fs) =
    let rest = append_bytes day bytes fs in
    if nat_beq d day
    then (d, b ++ bytes) ∷ fs
    else if ltb day d
    then (day, bytes) ∷ (d, b) ∷ fs
    else (d, b) ∷ rest

-- What `read_after` has read, before the rest.
abbrev pub join {ℓ} : {R : Type ℓ} → ReadResult R → ReadResult R → ReadResult R
join r s = record {
  records = r.records ++ s.records;
  bad_lines = r.bad_lines + s.bad_lines;
  end_cursor = s.end_cursor;
}

abbrev pub nothing {ℓ} : {R : Type ℓ} → ℕ → ReadResult R
nothing cursor = record { records = []; bad_lines = 0; end_cursor = cursor }

module _ {ℓ} {R : Type ℓ} (from_slice : List ℕ → Result R Text) where
  -- One complete line that ends at cursor `at`.
  unfoldable pub read_line : ℕ → List ℕ → ReadResult R
  read_line at l = elim (from_slice l) [
    | ok rec ↦ record { records = (at, rec) ∷ []; bad_lines = 0; end_cursor = at }
    | err _ ↦ record { records = []; bad_lines = 1; end_cursor = at }
  ]

  -- The lines of a day from an offset on; `end` is the cursor if there are none.
  unfoldable pub read_lines : ℕ → ℕ → ℕ → List (List ℕ) → ReadResult R
  read_lines day offset end [] = nothing end
  read_lines day offset end (l ∷ ls) =
      let offset' : ℕ = offset + (length l + 1) in
      let at : ℕ = make_cursor day offset' in join (read_line at l) (read_lines day offset' at ls)

  -- One day file, from the offset `start` on.
  unfoldable pub read_day : ℕ → ℕ → ℕ → List ℕ → ReadResult R
  read_day day start end bytes = read_lines day start end (lines_from [] (drop start bytes))

  -- The loop over the days: days before the cursor's are left out, and the first day that began
  -- just now ends it.
  unfoldable pub read_days : ℕ → ℕ → ℕ → ℕ → Files → ReadResult R
  read_days cur_day cur_off now end [] = nothing end
  read_days cur_day cur_off now end ((day, bytes) ∷ fs) =
      let skipped = read_days cur_day cur_off now end fs in
      let start : ℕ = if nat_beq day cur_day then cur_off else 0 in
      let here = read_day day start end bytes in
      let later = read_days cur_day cur_off now here.end_cursor fs in
      if ltb day cur_day
      then skipped
      else if ltb cur_day day && ltb now (day * day_ms + day_grace_ms)
      then nothing end
      else join here later

  unfoldable pub read_after : Files → ℕ → ℕ → ReadResult R
  read_after files cursor now =
      let (cur_day, cur_off) = split_cursor cursor in read_days cur_day cur_off now cursor files

-- `append`: a record that serde_json can print goes to the file of its day.
unfoldable pub append {ℓ} :
    {Value : Type ℓ}
    → (SpoolRecord Value → Result (List ℕ) Text)
    → SpoolRecord Value
    → Files
    → Result Files Text
append to_vec rec files = elim (to_vec rec) [
  | err e ↦ err e
  | ok line ↦ ok (append_bytes (rec.ts_ms / day_ms) (line ++ 10 ∷ []) files)
]

-- `cleanup`: the files that stay, and how many were removed.
unfoldable pub cleanup : ℕ → ℕ → Files → Files × ℕ
cleanup now keep_days [] = ([], 0)
cleanup now keep_days ((day, b) ∷ fs) =
    let (kept, removed) = cleanup now keep_days fs in
    if ltb (day + keep_days) (now / day_ms) then (kept, suc removed) else ((day, b) ∷ kept, removed)
