-- ===== src/Map/Values.antt =====
-- The values of a map whose values hold their keys.
use multi_ai.Base.{
  ◌≡◌, refl, ap, Bool, none, some, [], ◌∷◌, map, arith, PartialEq, ◌==◌, any, filter, is_some_and,
  Bool-cases, inl, inr,
}
use multi_ai.Map.{Map, get, values, Distinct}

module _ {ℓ κ} {K : Type ℓ} {V : Type κ} ⦃e : PartialEq K⦄ (key : V → K) where
  -- Every value holds its key.
  abbrev pub Keyed : Map K V → Type ℓ
  Keyed [] = Unit
  Keyed ((i, w) ∷ m) = (key w ≡ i) × Keyed m

  tail_get :
      (i k : K) (w r : V) (m : Map K V)
      → get i m ≡ none
      → get k m ≡ some r
      → get k ((i, w) ∷ m) ≡ some r
  unfolding get
  tail_get i k w r m free g = elim (Bool-cases (i == k)) [
    | inl same ↦ cc (ap (λ j. get j m) ((e.beq_iff i k).0 same))
    | inr other ↦ rw other g
  ]

  pub Keyed-of_get :
      (m : Map K V) → Distinct m → ((k : K) (r : V) → get k m ≡ some r → key r ≡ k) → Keyed m
  unfolding get
  Keyed-of_get [] d h = tt
  Keyed-of_get ((i, w) ∷ m) d h = (
    h i w (ground (arith, e.beq_iff i i)),
    Keyed-of_get m d.1 λ k r g. h k r (tail_get i k w r m d.0 g),
  )

  -- A key is among those of the values that pass a test exactly if its own value passes.
  pub any_key :
      (p : V → Bool) (k : K) (m : Map K V)
      → Distinct m
      → Keyed m
      → any (λ j. j == k) (map key (filter p (values m))) ≡ is_some_and (get k m) p
  unfolding get values
  any_key p k [] d h = refl
  any_key p k ((i, w) ∷ m) d h = elim (Bool-cases (i == k)) [
    | inl same ↦ ground (
      arith,
      any_key p k m d.1 h.1,
      h.0,
      e.beq_iff (key w) k,
      e.beq_iff i k,
      ap (λ j. get j m) ((e.beq_iff i k).0 same),
    )
    | inr other ↦ ground (arith, any_key p k m d.1 h.1, h.0, e.beq_iff (key w) k, e.beq_iff i k)
  ]
