-- ===== src/Spool/Due.antt =====
-- crates/mai-probe/src/spool.rs: the lines that are due, day by day.
use multi_ai.Base.{
  ℕ, ◌+◌, ◌*◌, ◌/◌, ◌%◌, ◌≤◌, ◌<◌, ◌≡◌, ◌⊎◌, refl, ap, ◌∙◌, Bool, true, false, not, ◌&&◌, ◌||◌,
  List, [], ◌∷◌, ◌++◌, arith, length, ltb, nat_beq, All, filter,
}
use multi_ai.Protocol.Codec.{lines_from}
use multi_ai.Spool.{make_cursor, split_cursor, offset_range, day_ms, day_grace_ms, Files}
use multi_ai.Spool.Cursors.{day_range, make_cursor_value}
use multi_ai.Spool.Lines.{total, total-lines_from, AtLine}

-- A complete line: its day, the cursor at its end, and its text.
pub record Entry : Type 0 where
  pub day : ℕ
  pub at : ℕ
  pub line : List ℕ

abbrev pub day_entries : ℕ → ℕ → List (List ℕ) → List Entry
day_entries day off [] = []
day_entries day off (l ∷ ls) =
    record { day = day; at = make_cursor day (off + (length l + 1)); line = l }
    ∷ day_entries day (off + (length l + 1)) ls

-- All complete lines of the spool, in order.
abbrev pub entries : Files → List Entry
entries [] = []
entries ((day, bytes) ∷ fs) = day_entries day 0 (lines_from [] bytes) ++ entries fs

-- A line that a reader at `cursor` is to be given: it is past the cursor, and its day is the
-- cursor's or began long enough ago.
abbrev pub is_due : ℕ → ℕ → Entry → Bool
is_due cursor now e =
    ltb cursor e.at
    && (nat_beq e.day (split_cursor cursor).0 || not (ltb now (e.day * day_ms + day_grace_ms)))

-- The days ascend, and days and sizes fit into a cursor.
abbrev pub Fits : Files → Type 0
Fits [] = Unit
Fits ((day, bytes) ∷ fs) =
    (day < day_range) × (length bytes < offset_range) × All (λ f. day < f.0) fs × Fits fs

-- The cursor stands at the end of a line of its day's file, if there is that file.
abbrev pub AtLines : ℕ → ℕ → Files → Type 0
AtLines day off fs = All (λ f. f.0 ≡ day → AtLine f.1 off) fs

pub filter-append :
    (p : Entry → Bool) (xs ys : List Entry) → filter p (xs ++ ys) ≡ filter p xs ++ filter p ys
filter-append p [] ys = refl
filter-append p (x ∷ xs) ys = ground (arith, filter-append p xs ys)

filter-false : (p : Entry → Bool) (xs : List Entry) → All (λ e. p e ≡ false) xs → filter p xs ≡ []
filter-false p [] a = refl
filter-false p (x ∷ xs) a = ground (arith, a.0, filter-false p xs a.1)

filter-true : (p : Entry → Bool) (xs : List Entry) → All (λ e. p e ≡ true) xs → filter p xs ≡ xs
filter-true p [] a = refl
filter-true p (x ∷ xs) a = ground (arith, a.0, filter-true p xs a.1)

-- The entries of one day lie between two cursors.
day_entries_within :
    (P : Entry → Type 0) (day off : ℕ) (ls : List (List ℕ))
    → day < day_range
    → off + total ls < offset_range
    → ((e : Entry)
        → e.day ≡ day
        → day * offset_range + off < e.at
        → e.at ≤ day * offset_range + off + total ls
        → P e)
    → All P (day_entries day off ls)
day_entries_within P day off [] d h f = tt
day_entries_within P day off (l ∷ ls) d h f =
    let v = make_cursor_value day (off + (length l + 1)) d (omega arith) in
    (
      f (record { day = day; at = make_cursor day (off + (length l + 1)); line = l }) refl
          (omega (arith, v)) (omega (arith, v)),
      day_entries_within P day (off + (length l + 1)) ls d (omega arith)
          (λ e s lo hi. f e s (omega (arith, lo)) (omega (arith, hi))),
    )

day_entries-append :
    (day off off' : ℕ) (xs ys : List (List ℕ))
    → off + total xs ≡ off'
    → day_entries day off (xs ++ ys) ≡ day_entries day off xs ++ day_entries day off' ys
day_entries-append day off off' [] ys e = ap (λ o. day_entries day o ys) (omega (arith, e))
day_entries-append day off off' (l ∷ xs) ys e =
    cc (day_entries-append day (off + (length l + 1)) off' xs ys (omega (arith, e)))

-- What is due of one day, by the place of the day.
pub head_before :
    (cursor now day : ℕ) (bytes : List ℕ)
    → day < day_range
    → length bytes < offset_range
    → day < (split_cursor cursor).0
    → filter (is_due cursor now) (day_entries day 0 (lines_from [] bytes)) ≡ []
unfolding split_cursor
head_before cursor now day bytes d n lt =
    filter-false (is_due cursor now) (day_entries day 0 (lines_from [] bytes)) (
      day_entries_within (λ e. is_due cursor now e ≡ false) day 0 (lines_from [] bytes) d
        (omega (arith, total-lines_from bytes))
        (λ e s lo hi.
          let past : e.at ≤ cursor = omega (arith, lt, hi, n, total-lines_from bytes) in
          ground (arith, past)))

head_hidden :
    (cursor now day : ℕ) (bytes : List ℕ)
    → day < day_range
    → length bytes < offset_range
    → (split_cursor cursor).0 < day
    → now < day * day_ms + day_grace_ms
    → filter (is_due cursor now) (day_entries day 0 (lines_from [] bytes)) ≡ []
unfolding split_cursor
head_hidden cursor now day bytes d n lt h =
    filter-false (is_due cursor now) (day_entries day 0 (lines_from [] bytes)) (
      day_entries_within (λ e. is_due cursor now e ≡ false) day 0 (lines_from [] bytes) d
        (omega (arith, total-lines_from bytes)) (λ e s lo hi. rw s (ground (arith, lt, h))))

pub head_later :
    (cursor now day : ℕ) (bytes : List ℕ)
    → day < day_range
    → length bytes < offset_range
    → (split_cursor cursor).0 < day
    → day * day_ms + day_grace_ms ≤ now
    → filter (is_due cursor now) (day_entries day 0 (lines_from [] bytes))
      ≡ day_entries day 0 (lines_from [] bytes)
unfolding split_cursor
head_later cursor now day bytes d n lt h =
    filter-true (is_due cursor now) (day_entries day 0 (lines_from [] bytes)) (
      day_entries_within (λ e. is_due cursor now e ≡ true) day 0 (lines_from [] bytes) d
        (omega (arith, total-lines_from bytes))
        (λ e s lo hi.
          let past : cursor < e.at = omega (arith, lt, lo) in rw s (ground (arith, past, h))))

pub none_later :
    (cursor now day : ℕ) (fs : Files)
    → Fits fs
    → All (λ f. day ≤ f.0) fs
    → (split_cursor cursor).0 < day
    → now < day * day_ms + day_grace_ms
    → filter (is_due cursor now) (entries fs) ≡ []
none_later cursor now day [] v a lt h = refl
none_later cursor now day ((d, bytes) ∷ fs) (r, n, m, v) (le, a) lt h =
    filter-append (is_due cursor now) (day_entries d 0 (lines_from [] bytes)) (entries fs)
    ∙ rw (head_hidden cursor now d bytes r n (omega arith) (omega arith))
        (none_later cursor now day fs v a lt h)

total-append : (xs ys : List (List ℕ)) → total (xs ++ ys) ≡ total xs + total ys
total-append [] ys = omega arith
total-append (x ∷ xs) ys = omega (arith, total-append xs ys)

-- The day of the cursor: the lines before it are not due, the others are.
pub head_now :
    (cursor now : ℕ) (bytes : List ℕ)
    → (split_cursor cursor).0 < day_range
    → length bytes < offset_range
    → (v : AtLine bytes (split_cursor cursor).1)
    → filter (is_due cursor now) (day_entries (split_cursor cursor).0 0 (lines_from [] bytes))
      ≡ day_entries (split_cursor cursor).0 (split_cursor cursor).1 v.after
unfolding split_cursor
head_now cursor now bytes d n v =
    let p : Entry → Bool = is_due cursor now in
    let day : ℕ = cursor / offset_range in
    let off : ℕ = cursor % offset_range in
    let size : total v.before + total v.after ≤ length bytes =
      omega (arith, total-append v.before v.after, ap total v.all, total-lines_from bytes) in
    let old : filter p (day_entries day 0 v.before) ≡ [] =
      filter-false p (day_entries day 0 v.before) (
        day_entries_within (λ e. p e ≡ false) day 0 v.before d (omega (arith, size))
          (λ e s lo hi.
            let past : e.at ≤ cursor = omega (arith, hi, v.offset) in ground (arith, past))) in
    let new : filter p (day_entries day off v.after) ≡ day_entries day off v.after =
      filter-true p (day_entries day off v.after) (
        day_entries_within (λ e. p e ≡ true) day off v.after d (omega (arith, size, v.offset))
          (λ e s lo hi.
            let past : cursor < e.at = omega (arith, lo) in rw s (ground (arith, past)))) in
    ap (λ ls. filter p (day_entries day 0 ls)) v.all
    ∙ (ap (filter p) (day_entries-append day 0 off v.before v.after (omega (arith, v.offset)))
        ∙ (filter-append p (day_entries day 0 v.before) (day_entries day off v.after) ∙ rw old new))

pub All-le : (day : ℕ) (fs : Files) → All (λ f. day < f.0) fs → All (λ f. day ≤ f.0) fs
All-le day [] a = tt
All-le day (f ∷ fs) (x, a) = (omega arith, All-le day fs a)

pub three_way : (a b : ℕ) → (a < b) ⊎ (a ≡ b) ⊎ (b < a)
three_way a b = ground arith
