-- ===== src/Swap/Safety.antt =====
-- crates/mai-core/src/swap.rs: `swap_in` as a whole.
use multi_ai.Base.{
  ℕ, ◌≡◌, ◌≢◌, ◌⊎◌, subst, sym, ap, ◌∙◌, inl, inr, Option, none, some, List, arith, Text,
  Result-cases, ok, err,
}
use multi_ai.Swap.{Disk, in_dir, upload_of, clean, move_aside, move_in, swap_in}
use multi_ai.Swap.Names.{leftover-ne-target, leftover-ne-upload}
use multi_ai.Swap.Files.{content}
use multi_ai.Swap.Aside.{
  clean-content, clean-fails, move_aside-Moved, Moved, move_aside-upload, move_aside-fails, IsAside,
  aside_ne,
}
use multi_ai.Swap.Stages.{move_in_ok, move_in_err, PutBack}
use multi_ai.Swap.Faults.{Faulty, Faulty-from, move_aside_fault, move_in_fault}

swap_in-cases :
    (dir exe : Text) (stamp : ℕ) (names : List Text) (d : Disk)
    → let t : Text = in_dir dir exe in
      let d1 : Disk = clean dir exe names d in
      let d2 : Disk = (move_aside t stamp d1).1 in
      ((e : Text) × ((move_aside t stamp d1).0 ≡ err e)
        × (swap_in dir exe stamp names d ≡ (err e, d2)))
      ⊎ (aside : Option Text) × ((move_aside t stamp d1).0 ≡ ok aside)
        × (swap_in dir exe stamp names d ≡ move_in t aside d2)
unfolding swap_in
swap_in-cases dir exe stamp names d =
    elim (Result-cases (move_aside (in_dir dir exe) stamp (clean dir exe names d)).0) [
      | inr (e, p) ↦ inl (e, p, ground (arith, p))
      | inl (a, p) ↦ inr (a, p, ground (arith, p))
    ]

-- What `move_aside` left, for a name it reports.
Moved-name :
    (t : Text) (stamp : ℕ) (d d' : Disk) (aside : Option Text)
    → Moved t stamp d d' (ok aside)
    → ((name : Text) → aside ≡ some name → name ≢ t)
      × ((name : Text) → aside ≡ some name → (c : Text) × (content name d' ≡ some c))
Moved-name t stamp d d' none m = (λ n e. cc, λ n e. cc)
Moved-name t stamp d d' (some name) (is, c, p, q) =
    (λ n e x. (aside_ne t stamp name is).0 (ground arith), λ n e. (c, cc q))

-- The binary is what it was, or it stands under a name for the old binary because a call failed.
abbrev pub Kept : Text → ℕ → Disk → Disk → Type 0
Kept t stamp d d' =
    (content t d' ≡ content t d)
    ⊎ (Faulty d × (name : Text) × IsAside t stamp name × (content name d' ≡ content t d))

kept :
    (t : Text) (stamp : ℕ) (d d1 d2 d' : Disk) (aside : Option Text)
    → content t d1 ≡ content t d
    → d2.fails ≡ d.fails
    → Moved t stamp d1 d2 (ok aside)
    → PutBack t aside d2 d'
    → Kept t stamp d d'
kept t stamp d d1 d2 d' none same f (z, z') back = inl (back ∙ (z' ∙ (sym z ∙ same)))
kept t stamp d d1 d2 d' (some name) same f (is, c, p, q) (inl back) =
    inl (back ∙ (q ∙ (sym p ∙ same)))
kept t stamp d d1 d2 d' (some name) same f (is, c, p, q) (inr (back, k, e, x)) =
    inr (Faulty-from d d2 f (k, e, x), name, is, back ∙ (q ∙ (sym p ∙ same)))

-- A swap that goes through had an upload, and the binary is that upload afterwards.
pub swap_in_ok :
    (dir exe : Text) (stamp : ℕ) (names : List Text) (d : Disk)
    → (swap_in dir exe stamp names d).0 ≡ ok tt
    → (c : Text) × (content (upload_of (in_dir dir exe)) d ≡ some c)
      × (content (in_dir dir exe) (swap_in dir exe stamp names d).1 ≡ some c)
swap_in_ok dir exe stamp names d h =
    let t : Text = in_dir dir exe in
    let u : Text = upload_of t in
    let d1 : Disk = clean dir exe names d in
    let d2 : Disk = (move_aside t stamp d1).1 in
    elim (swap_in-cases dir exe stamp names d) [
      | inl (e, p, m) ↦ cc (ap (λ z. z.0) m)
      | inr (aside, p, m) ↦
          let moved : Moved t stamp d1 d2 (ok aside) =
            subst (Moved t stamp d1 d2) p (move_aside-Moved t stamp d1) in
          let (ne, _) = Moved-name t stamp d1 d2 aside moved in
          let (c, q, r) = move_in_ok t aside d2 ne (sym (ap (λ z. z.0) m) ∙ h) in
          (
            c,
            sym (
                  move_aside-upload t stamp d1
                  ∙ clean-content u dir exe names d (λ n s. leftover-ne-upload dir exe n s))
                ∙ q,
            rw m r,
          )
    ]

-- After a swap that fails, the binary is what it was; or it stands under a name for the old binary,
-- which happens only if some call of the disk fails.
pub swap_in_err :
    (dir exe : Text) (stamp : ℕ) (names : List Text) (d : Disk) (e : Text)
    → (swap_in dir exe stamp names d).0 ≡ err e
    → let t : Text = in_dir dir exe in Kept t stamp d (swap_in dir exe stamp names d).1
swap_in_err dir exe stamp names d e h =
    let t : Text = in_dir dir exe in
    let d1 : Disk = clean dir exe names d in
    let d2 : Disk = (move_aside t stamp d1).1 in
    let cleaned : content t d1 ≡ content t d =
      clean-content t dir exe names d (λ n s. leftover-ne-target dir exe n s) in
    elim (swap_in-cases dir exe stamp names d) [
      | inl (x, p, m) ↦
          inl (rw m (subst (Moved t stamp d1 d2) p (move_aside-Moved t stamp d1) ∙ cleaned))
      | inr (aside, p, m) ↦
          let moved : Moved t stamp d1 d2 (ok aside) =
            subst (Moved t stamp d1 d2) p (move_aside-Moved t stamp d1) in
          let (_, at) = Moved-name t stamp d1 d2 aside moved in
          let back : PutBack t aside d2 (move_in t aside d2).1 =
            move_in_err t aside d2 (λ n q. at n q) (sym (ap (λ z. z.0) m) ∙ h) in
          rw m (
            kept t stamp d d1 d2 (move_in t aside d2).1 aside cleaned
              (move_aside-fails t stamp d1 ∙ clean-fails dir exe names d) moved back)
    ]

-- If the upload is there and no call of the disk fails, the swap goes through: an error means that
-- the upload was missing or that some call fails.
pub swap_in_fault :
    (dir exe : Text) (stamp : ℕ) (names : List Text) (d : Disk) (e : Text)
    → (swap_in dir exe stamp names d).0 ≡ err e
    → (content (upload_of (in_dir dir exe)) d ≡ none) ⊎ Faulty d
swap_in_fault dir exe stamp names d e h =
    let t : Text = in_dir dir exe in
    let u : Text = upload_of t in
    let d1 : Disk = clean dir exe names d in
    let d2 : Disk = (move_aside t stamp d1).1 in
    elim (swap_in-cases dir exe stamp names d) [
      | inl (x, p, m) ↦
          inr (Faulty-from d d1 (clean-fails dir exe names d) (move_aside_fault t stamp d1 p))
      | inr (aside, p, m) ↦ elim (move_in_fault t aside d2 (sym (ap (λ z. z.0) m) ∙ h)) [
        | inl z ↦ inl (
            sym (
              move_aside-upload t stamp d1
              ∙ clean-content u dir exe names d (λ n s. leftover-ne-upload dir exe n s))
            ∙ z)
        | inr f ↦
            inr (Faulty-from d d2 (move_aside-fails t stamp d1 ∙ clean-fails dir exe names d) f)
      ]
    ]
