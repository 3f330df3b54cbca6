-- ===== src/Swap/Names.antt =====
-- crates/mai-core/src/swap.rs: the names of a swap are different files.
use mathlib.Core.List.{append_assoc, append-nil}
use multi_ai.Base.{
  ℕ, ◌≡◌, ◌≢◌, refl, sym, ap, ◌∙◌, true, [], ◌∷◌, ◌++◌, arith, Text, text, decimal, starts_with,
  length, length-append,
}
use multi_ai.Swap.{in_dir, upload_of, old_of, stamped_of}

append-cancel : (s a b : Text) → s ++ a ≡ s ++ b → a ≡ b
append-cancel [] a b e = e
append-cancel (c ∷ s) a b e = append-cancel s a b (ground arith)

pub in_dir-injective : (dir m n : Text) → in_dir dir m ≡ in_dir dir n → m ≡ n
in_dir-injective dir m n e = let p = append-cancel dir (b'/' ∷ m) (b'/' ∷ n) e in ground arith

longer : (s : Text) (c : ℕ) (x : Text) → s ++ c ∷ x ≢ s
longer s c x e = absurd (omega (arith, ap length e, length-append s (c ∷ x)))

-- The target, the upload and the two names for the old binary.
pub upload-ne-target : (t : Text) → upload_of t ≢ t
upload-ne-target t e = longer t _ _ e

pub old-ne-target : (t : Text) → old_of t ≢ t
old-ne-target t e = longer t _ _ e

pub stamped-ne-target : (t : Text) (n : ℕ) → stamped_of t n ≢ t
stamped-ne-target t n e = longer t _ _ e

pub old-ne-upload : (t : Text) → old_of t ≢ upload_of t
old-ne-upload t e = let p = append-cancel t (text ".old") (text ".upload") e in cc

pub stamped-ne-upload : (t : Text) (n : ℕ) → stamped_of t n ≢ upload_of t
stamped-ne-upload t n e =
    let p = append-cancel t (text ".old-" ++ decimal n) (text ".upload") e in ground arith

starts_with-append : (s x y : Text) → starts_with (s ++ x) (s ++ y) ≡ starts_with x y
unfolding starts_with
starts_with-append [] x y = refl
starts_with-append (c ∷ s) x y = ground (arith, starts_with-append s x y)

-- A leftover is neither the binary nor the upload.
pub leftover-ne-target :
    (dir exe n : Text) → starts_with n (old_of exe) ≡ true → in_dir dir n ≢ in_dir dir exe
unfolding starts_with
leftover-ne-target dir exe n s e =
    let same : n ≡ exe ++ [] = in_dir-injective dir n exe e ∙ sym (append-nil exe) in
    cc (s, ap (λ m. starts_with m (old_of exe)) same, starts_with-append exe [] (text ".old"))

pub leftover-ne-upload :
    (dir exe n : Text)
    → starts_with n (old_of exe) ≡ true
    → in_dir dir n ≢ upload_of (in_dir dir exe)
unfolding starts_with
leftover-ne-upload dir exe n s e =
    let joined : upload_of (in_dir dir exe) ≡ in_dir dir (upload_of exe) =
      append_assoc dir (b'/' ∷ exe) (text ".upload") in
    let same : n ≡ upload_of exe = in_dir-injective dir n (upload_of exe) (e ∙ joined) in
    cc (
      s,
      ap (λ m. starts_with m (old_of exe)) same,
      starts_with-append exe (text ".upload") (text ".old"),
    )
