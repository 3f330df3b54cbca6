-- ===== src/Swap/Faults.antt =====
-- crates/mai-core/src/swap.rs: an error of a swap comes from a call that failed, or from an upload
-- that is not there.
use multi_ai.Base.{
  ℕ, ◌≡◌, ◌⊎◌, sym, ap, ◌∙◌, inl, inr, true, false, Option, none, some, Option-cases, arith, Text,
  Result-cases, err, is_some,
}
use multi_ai.Swap.{Disk, exists, rename, upload_of, old_of, aside_name, move_aside, move_in}
use multi_ai.Swap.Files.{content, exists-content, exists-fails, exists_ok, rename_refused}
use multi_ai.Swap.Aside.{aside_name-content, aside_name-fails}
use multi_ai.Swap.Stages.{move_in-cases}

-- Some call of the disk fails.
abbrev pub Faulty : Disk → Type 0
Faulty d = (k : ℕ) × (e : Text) × (d.fails k ≡ some e)

pub Faulty-from : (d d' : Disk) → d'.fails ≡ d.fails → Faulty d' → Faulty d
Faulty-from d d' f (k, e, p) = (k, e, sym (ap (λ g. g k) f) ∙ p)

exists_fault : (p : Text) (d : Disk) {e : Text} → (exists p d).0 ≡ err e → d.fails d.calls ≡ some e
unfolding exists
exists_fault p d h = ground arith

aside_name_fault :
    (t : Text) (stamp : ℕ) (d : Disk) {e : Text} → (aside_name t stamp d).0 ≡ err e → Faulty d
unfolding aside_name
aside_name_fault t stamp d {e} h = (d.calls, e, exists_fault (old_of t) d (ground arith))

pub move_aside_fault :
    (t : Text) (stamp : ℕ) (d : Disk) {e : Text} → (move_aside t stamp d).0 ≡ err e → Faulty d
unfolding move_aside
move_aside_fault t stamp d {e} h =
    let d1 : Disk = (exists t d).1 in
    let d2 : Disk = (aside_name t stamp d1).1 in
    elim (Result-cases (exists t d).0) [
      | inr (x, p) ↦ (d.calls, x, exists_fault t d p)
      | inl (false, p) ↦ ground (arith, p)
      | inl (true, p) ↦ elim (Result-cases (aside_name t stamp d1).0) [
        | inr (x, a) ↦ Faulty-from d d1 (exists-fails t d) (aside_name_fault t stamp d1 a)
        | inl (name, a) ↦ elim (Result-cases (rename t name d2).0) [
          | inl (u, r) ↦ ground (arith, p, a, r)
          | inr (x, r) ↦ elim (Option-cases (content t d)) [
            | inl z ↦ cc (exists_ok t d p, ap is_some z)
            | inr (c, z) ↦ Faulty-from d d2 (aside_name-fails t stamp d1 ∙ exists-fails t d) (
              d2.calls,
              x,
              rename_refused t name d2
                  (aside_name-content t t stamp d1 ∙ (exists-content t t d ∙ z)) r,
            )
          ]
        ]
      ]
    ]

pub move_in_fault :
    (t : Text) (aside : Option Text) (d : Disk) {e : Text}
    → (move_in t aside d).0 ≡ err e
    → (content (upload_of t) d ≡ none) ⊎ Faulty d
move_in_fault t aside d h = elim (move_in-cases t aside d) [
  | inl (r, m) ↦ cc (ap (λ z. z.0) m)
  | inr (x, r, m) ↦ elim (Option-cases (content (upload_of t) d)) [
    | inl z ↦ inl z
    | inr (c, z) ↦ inr (d.calls, x, rename_refused (upload_of t) t d z r)
  ]
]
