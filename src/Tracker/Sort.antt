-- ===== src/Tracker/Sort.antt =====
-- `sort_by_key` (stable), as an insertion sort, for the order of `Tracker::pending`.
use mathlib.Core.List.{Perm}
use mathlib.Core.List.Perm
use multi_ai.Base.{◌≡◌, Bool, true, false, inl, inr, List, [], ◌∷◌, Bool-cases, if◌then◌else◌, All}

module _ {ℓ} {A : Type ℓ} where
  -- Before the first entry that is not smaller.
  unfoldable pub insert_by : (A → A → Bool) → A → List A → List A
  insert_by le x [] = x ∷ []
  insert_by le x (y ∷ ys) = if le x y then x ∷ y ∷ ys else y ∷ insert_by le x ys

  unfoldable pub sort_by : (A → A → Bool) → List A → List A
  sort_by le [] = []
  sort_by le (x ∷ xs) = insert_by le x (sort_by le xs)

  insert_by-perm : (le : A → A → Bool) (x : A) (xs : List A) → Perm (insert_by le x xs) (x ∷ xs)
  unfolding insert_by
  insert_by-perm le x [] = Perm.refl (x ∷ [])
  insert_by-perm le x (y ∷ ys) = elim (Bool-cases (le x y)) [
    | inl h ↦ rw h (Perm.refl (x ∷ y ∷ ys))
    | inr h ↦ rw h (Perm.trans (Perm.cons y (insert_by-perm le x ys)) (Perm.swap x y ys))
  ]

  pub sort_by-perm : (le : A → A → Bool) (xs : List A) → Perm (sort_by le xs) xs
  unfolding sort_by
  sort_by-perm le [] = Perm.refl []
  sort_by-perm le (x ∷ xs) =
      Perm.trans (insert_by-perm le x (sort_by le xs)) (Perm.cons x (sort_by-perm le xs))

-- Every entry is related to all that stand behind it.
abbrev pub Sorted {ℓ κ} : {A : Type ℓ} → (A → A → Type κ) → List A → Type κ
Sorted R [] = Unit
Sorted R (x ∷ xs) = All (R x) xs × Sorted R xs

module _ {ℓ κ} {A : Type ℓ} (R : A → A → Type κ) (le : A → A → Bool)
    (le→R : (a b : A) → le a b ≡ true → R a b) (gt→R : (a b : A) → le a b ≡ false → R b a)
    (trans : (a b c : A) → R a b → R b c → R a c) where
  All-trans : (a b : A) (xs : List A) → R a b → All (R b) xs → All (R a) xs
  All-trans a b [] h hs = tt
  All-trans a b (x ∷ xs) h hs = (trans a b x h hs.0, All-trans a b xs h hs.1)

  All-insert_by : (a x : A) (xs : List A) → R a x → All (R a) xs → All (R a) (insert_by le x xs)
  unfolding insert_by
  All-insert_by a x [] h hs = (h, tt)
  All-insert_by a x (y ∷ ys) h hs = elim (Bool-cases (le x y)) [
    | inl e ↦ rw e (h, hs)
    | inr e ↦ rw e (hs.0, All-insert_by a x ys h hs.1)
  ]

  insert_by-Sorted : (x : A) (xs : List A) → Sorted R xs → Sorted R (insert_by le x xs)
  unfolding insert_by
  insert_by-Sorted x [] s = (tt, tt)
  insert_by-Sorted x (y ∷ ys) s = elim (Bool-cases (le x y)) [
    | inl e ↦ rw e ((le→R x y e, All-trans x y ys (le→R x y e) s.0), s)
    | inr e ↦ rw e (All-insert_by y x ys (gt→R x y e) s.0, insert_by-Sorted x ys s.1)
  ]

  pub sort_by-Sorted : (xs : List A) → Sorted R (sort_by le xs)
  unfolding sort_by
  sort_by-Sorted [] = tt
  sort_by-Sorted (x ∷ xs) = insert_by-Sorted x (sort_by le xs) (sort_by-Sorted xs)
