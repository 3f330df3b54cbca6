-- ===== src/Swap/Aside.antt =====
-- crates/mai-core/src/swap.rs: cleaning up, and moving the old binary aside.
use multi_ai.Base.{
  ℕ, ◌≡◌, ◌≢◌, ◌⊎◌, refl, sym, ◌∙◌, Bool-cases, inl, inr, true, false, Option, none, some, List, [],
  ◌∷◌, arith, Text, Result, Result-cases, ok, err, starts_with,
}
use multi_ai.Swap.{
  Disk, exists, remove, rename, list, in_dir, upload_of, old_of, stamped_of, remove_leftovers,
  clean, aside_name, move_aside,
}
use multi_ai.Swap.Names.{
  upload-ne-target, old-ne-target, stamped-ne-target, old-ne-upload, stamped-ne-upload,
}
use multi_ai.Swap.Files.{
  content, exists-content, list-content, remove-content, rename_err, rename_ok, exists-fails,
  list-fails, remove-fails, rename-fails, exists_ok,
}

-- Cleaning up keeps a file that is no leftover.
remove_leftovers-content :
    (q dir prefix : Text) (ns : List Text) (d : Disk)
    → ((n : Text) → starts_with n prefix ≡ true → in_dir dir n ≢ q)
    → content q (remove_leftovers dir prefix ns d) ≡ content q d
unfolding remove_leftovers
remove_leftovers-content q dir prefix [] d h = refl
remove_leftovers-content q dir prefix (n ∷ ns) d h = elim (Bool-cases (starts_with n prefix)) [
  | inl s ↦
      let d1 : Disk = (remove (in_dir dir n) d).1 in
      rw (s, remove_leftovers-content q dir prefix ns d1 h)
        (remove-content q (in_dir dir n) d (λ e. h n s (sym e)))
  | inr s ↦ rw s (remove_leftovers-content q dir prefix ns d h)
]

pub clean-content :
    (q dir exe : Text) (ns : List Text) (d : Disk)
    → ((n : Text) → starts_with n (old_of exe) ≡ true → in_dir dir n ≢ q)
    → content q (clean dir exe ns d) ≡ content q d
unfolding clean
clean-content q dir exe ns d h = elim (Result-cases (list ns d).0) [
  | inl (got, e) ↦ ground (
    arith,
    e,
    remove_leftovers-content q dir (old_of exe) got (list ns d).1 h,
    list-content q ns d,
  )
  | inr (x, e) ↦ ground (arith, e, list-content q ns d)
]

remove_leftovers-fails :
    (dir prefix : Text) (ns : List Text) (d : Disk)
    → (remove_leftovers dir prefix ns d).fails ≡ d.fails
unfolding remove_leftovers
remove_leftovers-fails dir prefix [] d = refl
remove_leftovers-fails dir prefix (n ∷ ns) d = elim (Bool-cases (starts_with n prefix)) [
  | inl s ↦ rw s (
      remove_leftovers-fails dir prefix ns (remove (in_dir dir n) d).1
      ∙ remove-fails (in_dir dir n) d)
  | inr s ↦ rw s (remove_leftovers-fails dir prefix ns d)
]

pub clean-fails :
    (dir exe : Text) (ns : List Text) (d : Disk) → (clean dir exe ns d).fails ≡ d.fails
unfolding clean
clean-fails dir exe ns d = elim (Result-cases (list ns d).0) [
  | inl (got, e) ↦
      ground (arith, e, remove_leftovers-fails dir (old_of exe) got (list ns d).1, list-fails ns d)
  | inr (x, e) ↦ ground (arith, e, list-fails ns d)
]

-- The names for the old binary.
abbrev pub IsAside : Text → ℕ → Text → Type 0
IsAside t stamp name = (name ≡ old_of t) ⊎ (name ≡ stamped_of t stamp)

-- They are neither the binary's nor the upload's.
pub aside_ne :
    (t : Text) (stamp : ℕ) (name : Text) → IsAside t stamp name → (name ≢ t) × (name ≢ upload_of t)
aside_ne t stamp name (inl e) = rw e (old-ne-target t, old-ne-upload t)
aside_ne t stamp name (inr e) = rw e (stamped-ne-target t stamp, stamped-ne-upload t stamp)

aside_name_ok :
    (t : Text) (stamp : ℕ) (d : Disk) {name : Text}
    → (aside_name t stamp d).0 ≡ ok name
    → IsAside t stamp name
unfolding aside_name
aside_name_ok t stamp d h = ground arith

pub aside_name-content :
    (q t : Text) (stamp : ℕ) (d : Disk) → content q (aside_name t stamp d).1 ≡ content q d
unfolding aside_name
aside_name-content q t stamp d = ground (arith, exists-content q (old_of t) d)

pub aside_name-fails : (t : Text) (stamp : ℕ) (d : Disk) → (aside_name t stamp d).1.fails ≡ d.fails
unfolding aside_name
aside_name-fails t stamp d = ground (arith, exists-fails (old_of t) d)

-- Moving aside: where the old binary stands afterwards.
abbrev pub Moved : Text → ℕ → Disk → Disk → Result (Option Text) Text → Type 0
Moved t stamp d d' (err e) = content t d' ≡ content t d
Moved t stamp d d' (ok none) = (content t d ≡ none) × (content t d' ≡ none)
Moved t stamp d d' (ok (some name)) =
    IsAside t stamp name × (c : Text) × (content t d ≡ some c) × (content name d' ≡ some c)

-- What `move_aside` did, by the way it ended.
move_aside-cases :
    (t : Text) (stamp : ℕ) (d : Disk)
    → let d1 : Disk = (exists t d).1 in
      let d2 : Disk = (aside_name t stamp d1).1 in
      ((e : Text) × (move_aside t stamp d ≡ (err e, d1)))
      ⊎ ((content t d ≡ none) × (move_aside t stamp d ≡ (ok none, d1)))
      ⊎ ((e : Text) × (move_aside t stamp d ≡ (err e, d2)))
      ⊎ (name : Text) × ((aside_name t stamp d1).0 ≡ ok name)
        × (((e : Text) × ((rename t name d2).0 ≡ err e)
              × (move_aside t stamp d ≡ (err e, (rename t name d2).1)))
            ⊎ (((rename t name d2).0 ≡ ok tt)
                × (move_aside t stamp d ≡ (ok (some name), (rename t name d2).1))))
unfolding move_aside
move_aside-cases t stamp d =
    let d1 : Disk = (exists t d).1 in
    let d2 : Disk = (aside_name t stamp d1).1 in
    elim (Result-cases (exists t d).0) [
      | inr (e, x) ↦ inl (e, ground (arith, x))
      | inl (false, x) ↦ inr (inl (ground (arith, exists_ok t d x), ground (arith, x)))
      | inl (true, x) ↦ elim (Result-cases (aside_name t stamp d1).0) [
        | inr (e, a) ↦ inr (inr (inl (e, ground (arith, x, a))))
        | inl (name, a) ↦ elim (Result-cases (rename t name d2).0) [
          | inr (e, r) ↦ inr (inr (inr (name, a, inl (e, r, ground (arith, x, a, r)))))
          | inl (u, r) ↦ inr (inr (inr (name, a, inr (r, ground (arith, x, a, r)))))
        ]
      ]
    ]

pub move_aside-Moved :
    (t : Text) (stamp : ℕ) (d : Disk)
    → Moved t stamp d (move_aside t stamp d).1 (move_aside t stamp d).0
move_aside-Moved t stamp d =
    let d1 : Disk = (exists t d).1 in
    let d2 : Disk = (aside_name t stamp d1).1 in
    elim (move_aside-cases t stamp d) [
      | inl (e, m) ↦ rw m (exists-content t t d)
      | inr (inl (z, m)) ↦ rw m (z, exists-content t t d ∙ z)
      | inr (inr (inl (e, m))) ↦ rw m (aside_name-content t t stamp d1 ∙ exists-content t t d)
      | inr (inr (inr (name, a, inl (e, r, m)))) ↦
          rw m (rename_err t t name d2 r ∙ (aside_name-content t t stamp d1 ∙ exists-content t t d))
      | inr (inr (inr (name, a, inr (r, m)))) ↦
          let (c, p, q, _) = rename_ok t name d2 r in
          rw m (
            aside_name_ok t stamp d1 a,
            c,
            sym (aside_name-content t t stamp d1 ∙ exists-content t t d) ∙ p,
            q,
          )
    ]

pub move_aside-upload :
    (t : Text) (stamp : ℕ) (d : Disk)
    → content (upload_of t) (move_aside t stamp d).1 ≡ content (upload_of t) d
move_aside-upload t stamp d =
    let u : Text = upload_of t in
    let d1 : Disk = (exists t d).1 in
    let d2 : Disk = (aside_name t stamp d1).1 in
    let kept : content u d2 ≡ content u d =
      aside_name-content u t stamp d1 ∙ exists-content u t d in
    elim (move_aside-cases t stamp d) [
      | inl (e, m) ↦ rw m (exists-content u t d)
      | inr (inl (z, m)) ↦ rw m (exists-content u t d)
      | inr (inr (inl (e, m))) ↦ rw m kept
      | inr (inr (inr (name, a, inl (e, r, m)))) ↦ rw m (rename_err u t name d2 r ∙ kept)
      | inr (inr (inr (name, a, inr (r, m)))) ↦
          let (_, nu) = aside_ne t stamp name (aside_name_ok t stamp d1 a) in
          let (c, p, q, others) = rename_ok t name d2 r in
          rw m (others u (upload-ne-target t) (λ x. nu (sym x)) ∙ kept)
    ]

pub move_aside-fails : (t : Text) (stamp : ℕ) (d : Disk) → (move_aside t stamp d).1.fails ≡ d.fails
move_aside-fails t stamp d =
    let d1 : Disk = (exists t d).1 in
    let d2 : Disk = (aside_name t stamp d1).1 in
    let same : d2.fails ≡ d.fails = aside_name-fails t stamp d1 ∙ exists-fails t d in
    elim (move_aside-cases t stamp d) [
      | inl (e, m) ↦ rw m (exists-fails t d)
      | inr (inl (z, m)) ↦ rw m (exists-fails t d)
      | inr (inr (inl (e, m))) ↦ rw m same
      | inr (inr (inr (name, a, inl (e, r, m)))) ↦ rw m (rename-fails t name d2 ∙ same)
      | inr (inr (inr (name, a, inr (r, m)))) ↦ rw m (rename-fails t name d2 ∙ same)
    ]
