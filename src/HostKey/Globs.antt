-- ===== src/HostKey/Globs.antt =====
-- crates/mai-core/src/ssh/hostkey.rs: what the globs of host patterns match.
use multi_ai.Base.{
  ℕ, ◌≡◌, ◌≢◌, ◌⊎◌, ◌↔◌, refl, ap, Bool, true, [], ◌∷◌, ◌++◌, arith, Text, nat_beq, Bool-cases, inl,
  inr,
}
use multi_ai.HostKey.{glob, any_suffix, on_first}

-- A text matches a pattern piece by piece: `*` stands for any run of characters, `?` for one, and
-- another character for itself.
abbrev pub IsMatch : Text → Text → Type 0
IsMatch [] t = t ≡ []
IsMatch (p ∷ ps) t =
    ((p ≡ b'*') × (run : Text) × (s : Text) × (t ≡ run ++ s) × IsMatch ps s)
    ⊎ ((p ≢ b'*') × (c : ℕ) × (s : Text) × (t ≡ c ∷ s) × ((p ≡ b'?') ⊎ (p ≡ c)) × IsMatch ps s)

suffix_sound :
    (f : Text → Bool) (t : Text)
    → any_suffix f t ≡ true
    → (run : Text) × (s : Text) × (t ≡ run ++ s) × (f s ≡ true)
suffix_sound f [] h = ([], [], refl, h)
suffix_sound f (c ∷ t) h = elim (Bool-cases (f (c ∷ t))) [
  | inl y ↦ ([], c ∷ t, refl, y)
  | inr n ↦
      let (run, s, e, q) = suffix_sound f t (ground (arith, n)) in
      (c ∷ run, s, ap (λ x. c ∷ x) e, q)
]

suffix_complete : (f : Text → Bool) (run s : Text) → f s ≡ true → any_suffix f (run ++ s) ≡ true
suffix_complete f [] [] h = h
suffix_complete f [] (c ∷ s) h = ground arith
suffix_complete f (c ∷ run) s h = ground (arith, suffix_complete f run s h)

first_sound :
    (q : ℕ → Bool) (f : Text → Bool) (t : Text)
    → on_first q f t ≡ true
    → (c : ℕ) × (s : Text) × (t ≡ c ∷ s) × (q c ≡ true) × (f s ≡ true)
first_sound q f [] h = cc
first_sound q f (c ∷ s) h = (c, s, refl, ground arith, ground arith)

glob_sound : (p t : Text) → glob p t ≡ true → IsMatch p t
unfolding glob
glob_sound [] [] h = refl
glob_sound [] (c ∷ t) h = cc
glob_sound (p ∷ ps) t h = elim (Bool-cases (nat_beq p b'*')) [
  | inl star ↦
      let (run, s, e, q) = suffix_sound (glob ps) t (ground (arith, star)) in
      inl (ground arith, run, s, e, glob_sound ps s q)
  | inr other ↦ elim (Bool-cases (nat_beq p b'?')) [
    | inl one ↦
        let (c, s, e, _, q) = first_sound (λ x. true) (glob ps) t (ground (arith, other, one)) in
        inr (ground arith, c, s, e, inl (ground arith), glob_sound ps s q)
    | inr char ↦
        let (c, s, e, same, q) =
          first_sound (λ x. nat_beq x p) (glob ps) t (ground (arith, other, char)) in
        inr (ground arith, c, s, e, inr (ground arith), glob_sound ps s q)
  ]
]

glob_complete : (p t : Text) → IsMatch p t → glob p t ≡ true
unfolding glob
glob_complete [] [] m = refl
glob_complete [] (c ∷ t) m = cc
glob_complete (p ∷ ps) t (inl (star, run, s, e, m)) =
    ground (arith, e, suffix_complete (glob ps) run s (glob_complete ps s m))
glob_complete (p ∷ ps) t (inr (other, c, s, e, same, m)) = ground (arith, e, glob_complete ps s m)

-- A glob matches exactly the texts that it describes.
pub glob_lem : (p t : Text) → (glob p t ≡ true) ↔ IsMatch p t
glob_lem p t = (glob_sound p t, glob_complete p t)
