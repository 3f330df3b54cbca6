-- ===== src/Swap/Stages.antt =====
-- crates/mai-core/src/swap.rs: what moving the new binary in leaves behind.
use multi_ai.Base.{
  ℕ, ◌≡◌, ◌≢◌, ◌⊎◌, refl, sym, ap, ◌∙◌, inl, inr, Option, none, some, arith, Text, text, ◌++◌,
  Result-cases, ok, err,
}
use multi_ai.Swap.{Disk, rename, upload_of, restore, drop_old, move_in}
use multi_ai.Swap.Files.{
  content, remove-content, rename_err, rename_ok, rename_refused, rename-fails,
}

-- Moving the new binary in.
abbrev pub PutBack : Text → Option Text → Disk → Disk → Type 0
PutBack t none d d' = content t d' ≡ content t d
PutBack t (some name) d d' =
    (content t d' ≡ content name d)
    ⊎ ((content name d' ≡ content name d) × (k : ℕ) × (e : Text) × (d.fails k ≡ some e))

pub move_in-cases :
    (t : Text) (aside : Option Text) (d : Disk)
    → let d1 : Disk = (rename (upload_of t) t d).1 in
      (((rename (upload_of t) t d).0 ≡ ok tt) × (move_in t aside d ≡ (ok tt, drop_old aside d1)))
      ⊎ (e : Text) × ((rename (upload_of t) t d).0 ≡ err e)
        × (move_in t aside d ≡ restore t aside e d1)
unfolding move_in
move_in-cases t aside d = elim (Result-cases (rename (upload_of t) t d).0) [
  | inl (u, r) ↦ inl (r, ground (arith, r))
  | inr (e, r) ↦ inr (e, r, ground (arith, r))
]

restore_err :
    (t : Text) (aside : Option Text) (e : Text) (d : Disk)
    → (x : Text) × ((restore t aside e d).0 ≡ err x)
unfolding restore
restore_err t none e d = (e, refl)
restore_err t (some name) e d = elim (Result-cases (rename name t d).0) [
  | inl (u, r) ↦ (e, ground (arith, r))
  | inr (x, r) ↦
      (e ++ (text "; restoring " ++ (name ++ (text " also failed: " ++ x))), ground (arith, r))
]

dropped-content :
    (t : Text) (aside : Option Text) (d : Disk)
    → ((name : Text) → aside ≡ some name → name ≢ t)
    → content t (drop_old aside d) ≡ content t d
unfolding drop_old
dropped-content t none d other = refl
dropped-content t (some name) d other = remove-content t name d (λ e. other name refl (sym e))

-- If it went through, the upload is the binary; and it cannot go through without an upload.
pub move_in_ok :
    (t : Text) (aside : Option Text) (d : Disk)
    → ((name : Text) → aside ≡ some name → name ≢ t)
    → (move_in t aside d).0 ≡ ok tt
    → (c : Text) × (content (upload_of t) d ≡ some c) × (content t (move_in t aside d).1 ≡ some c)
unfolding drop_old
move_in_ok t aside d other h = elim (move_in-cases t aside d) [
  | inr (e, r, m) ↦
      let (x, f) = restore_err t aside e (rename (upload_of t) t d).1 in cc (ap (λ z. z.0) m)
  | inl (r, m) ↦
      let (c, p, q, _) = rename_ok (upload_of t) t d r in
      (c, p, rw m (dropped-content t aside (rename (upload_of t) t d).1 other ∙ q))
]

-- If it did not, the old binary is back, or it stands aside because a call failed.
restored :
    (t : Text) (aside : Option Text) (e : Text) (d : Disk)
    → ((name : Text) → aside ≡ some name → (c : Text) × (content name d ≡ some c))
    → PutBack t aside d (restore t aside e d).1
unfolding restore
restored t none e d there = refl
restored t (some name) e d there =
    let (c, p) = there name refl in
    elim (Result-cases (rename name t d).0) [
      | inl (u, r) ↦
          let (x, from, to, _) = rename_ok name t d r in inl (ground (arith, r, from, to))
      | inr (x, r) ↦
          inr
            (ground (arith, r, rename_err name name t d r), d.calls, x, rename_refused name t d p r)
    ]

PutBack-from :
    (t : Text) (aside : Option Text) (d0 d d' : Disk)
    → ((q : Text) → content q d ≡ content q d0)
    → d.fails ≡ d0.fails
    → PutBack t aside d d'
    → PutBack t aside d0 d'
PutBack-from t none d0 d d' same f p = p ∙ same t
PutBack-from t (some name) d0 d d' same f (inl p) = inl (p ∙ same name)
PutBack-from t (some name) d0 d d' same f (inr (p, k, e, q)) =
    inr (p ∙ same name, k, e, sym (ap (λ g. g k) f) ∙ q)

pub move_in_err :
    (t : Text) (aside : Option Text) (d : Disk) {x : Text}
    → ((name : Text) → aside ≡ some name → (c : Text) × (content name d ≡ some c))
    → (move_in t aside d).0 ≡ err x
    → PutBack t aside d (move_in t aside d).1
move_in_err t aside d there h = elim (move_in-cases t aside d) [
  | inl (r, m) ↦ cc (ap (λ z. z.0) m)
  | inr (e, r, m) ↦
      let d1 : Disk = (rename (upload_of t) t d).1 in
      let same : (q : Text) → content q d1 ≡ content q d = λ q. rename_err q (upload_of t) t d r in
      rw m (
        PutBack-from t aside d d1 (restore t aside e d1).1 same (rename-fails (upload_of t) t d)
          (restored t aside e d1 (λ n q. let (c, p) = there n q in (c, same n ∙ p))))
]
