-- ===== src/Spool/Lines.antt =====
-- crates/mai-probe/src/spool.rs: the complete lines of a day file, and what follows an offset.
use multi_ai.Base.{
  ℕ, zero, suc, ◌+◌, ◌≤◌, ◌≡◌, refl, ap, sym, ◌∙◌, List, [], ◌∷◌, ◌++◌, arith, length,
  length-append, drop, nat_beq, Bool-cases, inl, inr,
}
use multi_ai.Protocol.Codec.{lines_from}

-- The bytes of some lines, their line feeds included.
abbrev pub total : List (List ℕ) → ℕ
total [] = 0
total (l ∷ ls) = length l + 1 + total ls

lines_total : (acc bytes : List ℕ) → total (lines_from acc bytes) ≤ length acc + length bytes
unfolding lines_from
lines_total acc [] = omega arith
lines_total acc (c ∷ s) = elim (Bool-cases (nat_beq c 10)) [
  | inl y ↦ rw y (omega (arith, lines_total [] s))
  | inr n ↦ rw n (omega (arith, lines_total (acc ++ c ∷ []) s, length-append acc (c ∷ [])))
]

pub total-lines_from : (bytes : List ℕ) → total (lines_from [] bytes) ≤ length bytes
total-lines_from bytes = omega (arith, lines_total [] bytes)

line_longer :
    (acc bytes l : List ℕ) (ls : List (List ℕ))
    → lines_from acc bytes ≡ l ∷ ls
    → length acc ≤ length l
unfolding lines_from
line_longer acc [] l ls e = cc
line_longer acc (c ∷ s) l ls e = elim (Bool-cases (nat_beq c 10)) [
  | inl y ↦ ground (arith, y)
  | inr n ↦
      let p : lines_from (acc ++ c ∷ []) s ≡ l ∷ ls = ground (arith, n) in
      omega (arith, line_longer (acc ++ c ∷ []) s l ls p, length-append acc (c ∷ []))
]

-- What follows the first line.
lines_tail :
    (acc bytes l : List ℕ) (ls : List (List ℕ)) (n : ℕ)
    → lines_from acc bytes ≡ l ∷ ls
    → length l + 1 ≡ length acc + n
    → lines_from [] (drop n bytes) ≡ ls
unfolding lines_from
lines_tail acc [] l ls n e h = cc
lines_tail acc (c ∷ s) l ls zero e h = absurd (omega (arith, line_longer acc (c ∷ s) l ls e))
lines_tail acc (c ∷ s) l ls (suc n) e h = elim (Bool-cases (nat_beq c 10)) [
  | inl y ↦
      let p : acc ≡ l = ground (arith, y) in
      let q : lines_from [] s ≡ ls = ground (arith, y) in
      let z : n ≡ 0 = omega (arith, h, ap length p) in ap (λ k. lines_from [] (drop k s)) z ∙ q
  | inr k ↦
      let p : lines_from (acc ++ c ∷ []) s ≡ l ∷ ls = ground (arith, k) in
      lines_tail (acc ++ c ∷ []) s l ls n p (omega (arith, h, length-append acc (c ∷ [])))
]

drop-drop : (m n k : ℕ) (bytes : List ℕ) → m + n ≡ k → drop n (drop m bytes) ≡ drop k bytes
drop-drop zero n k bytes h = ap (λ i. drop i bytes) (omega (arith, h))
drop-drop (suc m) n zero bytes h = absurd (omega (arith, h))
drop-drop (suc m) zero (suc k) [] h = refl
drop-drop (suc m) (suc n) (suc k) [] h = refl
drop-drop (suc m) n (suc k) (c ∷ s) h = drop-drop m n k s (omega (arith, h))

-- An offset at the end of a complete line, or at the start.
pub record AtLine (bytes : List ℕ) (off : ℕ) : Type 0 where
  pub before : List (List ℕ)
  pub after : List (List ℕ)
  pub all : lines_from [] bytes ≡ before ++ after
  pub offset : total before ≡ off

lines_after :
    (bytes : List ℕ) (before after : List (List ℕ))
    → lines_from [] bytes ≡ before ++ after
    → lines_from [] (drop (total before) bytes) ≡ after
lines_after bytes [] after e = e
lines_after bytes (l ∷ ls) after e =
    let p : lines_from [] (drop (length l + 1) bytes) ≡ ls ++ after =
      lines_tail [] bytes l (ls ++ after) (length l + 1) e (omega arith) in
    ap (lines_from []) (sym (drop-drop (length l + 1) (total ls) (total (l ∷ ls)) bytes refl))
    ∙ lines_after (drop (length l + 1) bytes) ls after p

-- Reading on from there gives the lines after it.
pub lines_from-drop :
    (bytes : List ℕ) (off : ℕ) (v : AtLine bytes off) → lines_from [] (drop off bytes) ≡ v.after
lines_from-drop bytes off v =
    ap (λ n. lines_from [] (drop n bytes)) (sym v.offset) ∙ lines_after bytes v.before v.after v.all
