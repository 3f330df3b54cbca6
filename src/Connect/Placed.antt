-- ===== src/Connect/Placed.antt =====
-- crates/mai-core/src/connect.rs: what stands at the path of the local probe after `place_binary`.
use multi_ai.Base.{
  ℕ, subst, ◌≡◌, ◌≢◌, refl, ap, sym, ◌∙◌, inl, inr, ◌==◌, list_eq, nat_eq, option_eq,
  option_beq_iff, Bool, true, false, Option, none, some, List, Text, Result, ok, err, if_cases,
  arith, ok-injective,
}
use multi_ai.Map.{get-insert_self, get-insert_ne}
use multi_ai.Swap.{Disk, ticked, in_dir, upload_of, swap_in}
use multi_ai.Swap.Names.{upload-ne-target}
use multi_ai.Swap.Files.{content}
use multi_ai.Swap.Faults.{Faulty-from}
use multi_ai.Swap.Safety.{Kept, swap_in_ok, swap_in_err}
use multi_ai.Connect.Placing.{
  read, create_dir_all, write_by, write, set_permissions, then_do, hash_found, stop_existing,
  place_new, place_over, place_binary,
}

-- The same answers of the disk, and the same content of one file.
abbrev pub Same : Text → Disk → Disk → Type 0
Same t d d' = (content t d' ≡ content t d) × (d'.fails ≡ d.fails)

Same-trans : (t : Text) (d d' d'' : Disk) → Same t d d' → Same t d' d'' → Same t d d''
Same-trans t d d' d'' (a, f) (b, g) = (b ∙ a, g ∙ f)

then_do_err :
    {A B : Type 0} {e : Text} (P : Disk → Type 0) (r : Result A Text × Disk)
    (next : A → Disk → Result B Text × Disk)
    → P r.1
    → ((a : A) → r.0 ≡ ok a → (next a r.1).0 ≡ err e → P (next a r.1).1)
    → (then_do r next).0 ≡ err e
    → P (then_do r next).1
then_do_err P (err x, d) next p f h = p
then_do_err P (ok a, d) next p f h = f a refl h

then_do_ok :
    {A B : Type 0} {b : B} (P : Disk → Type 0) (r : Result A Text × Disk)
    (next : A → Disk → Result B Text × Disk)
    → ((a : A) → r.0 ≡ ok a → (next a r.1).0 ≡ ok b → P (next a r.1).1)
    → (then_do r next).0 ≡ ok b
    → P (then_do r next).1
then_do_ok P (err x, d) next f h = cc
then_do_ok P (ok a, d) next f h = f a refl h

last_err :
    {A : Type 0} {e : Text} (P : Disk → Type 0) (r : Result A Text × Disk)
    → (r.0 ≡ err e → P r.1)
    → (then_do {B = Bool} r (λ _ d. (ok true, d))).0 ≡ err e
    → P (then_do {B = Bool} r (λ _ d. (ok true, d))).1
last_err P (err x, d) p h = p (cc h)
last_err P (ok a, d) p h = cc

read-Same : (t path : Text) (d : Disk) → Same t d (read path d).1
unfolding read
read-Same t path d = (ground arith, ground arith)

create_dir_all-Same : (t : Text) (d : Disk) → Same t d (create_dir_all d).1
unfolding create_dir_all
create_dir_all-Same t d = (ground arith, ground arith)

set_permissions-Same : (t : Text) (unix : Bool) (d : Disk) → Same t d (set_permissions unix d).1
unfolding set_permissions
set_permissions-Same t unix d = (ground arith, ground arith)

write_by-Same :
    (t path bytes partial : Text) (d : Disk) (o : Option Text)
    → t ≢ path
    → Same t d (write_by o path bytes partial d).1
write_by-Same t path bytes partial d none n = (get-insert_ne path t bytes d.files n, refl)
write_by-Same t path bytes partial d (some e) n = (get-insert_ne path t partial d.files n, refl)

write-Same :
    (t path bytes partial : Text) (d : Disk) → t ≢ path → Same t d (write path bytes partial d).1
unfolding write
write-Same t path bytes partial d = write_by-Same t path bytes partial (ticked d) (d.fails d.calls)

write_by_ok :
    (path bytes partial : Text) (d : Disk) (o : Option Text) (u : Unit {0})
    → (write_by o path bytes partial d).0 ≡ ok u
    → content path (write_by o path bytes partial d).1 ≡ some bytes
write_by_ok path bytes partial d none u h = get-insert_self path bytes d.files
write_by_ok path bytes partial d (some e) u h = cc

write_ok :
    (path bytes partial : Text) (d : Disk) (u : Unit {0})
    → (write path bytes partial d).0 ≡ ok u
    → content path (write path bytes partial d).1 ≡ some bytes
unfolding write
write_ok path bytes partial d u h = write_by_ok path bytes partial (ticked d) (d.fails d.calls) u h

read_ok : (path : Text) (d : Disk) (c : Text) → (read path d).0 ≡ ok c → content path d ≡ some c
unfolding read
read_ok path d c h = ground arith

Kept-after :
    (t : Text) (stamp : ℕ) (d dn d' : Disk) → Same t d dn → Kept t stamp dn d' → Kept t stamp d d'
Kept-after t stamp d dn d' (same, f) (inl p) = inl (p ∙ same)
Kept-after t stamp d dn d' (same, f) (inr (faulty, name, is, p)) =
    inr (Faulty-from d dn f faulty, name, is, p ∙ same)

hash_found_ok :
    (sha : Text → Text) (r : Result Text Text) (h : Text)
    → hash_found sha r ≡ some h
    → (c : Text) × (r ≡ ok c) × (sha c ≡ h)
hash_found_ok sha (ok c) h q = (c, refl, cc)
hash_found_ok sha (err e) h q = cc

-- The binary has the hash of `bytes`; it is `bytes` if it was written.
abbrev pub Stands : (Text → Text) → Text → Text → Bool → Disk → Type 0
Stands sha exe bytes written d =
    (c : Text) × (content exe d ≡ some c) × (sha c ≡ sha bytes) × (written ≡ true → c ≡ bytes)

module _ (sha : Text → Text) (stop : Disk → Disk) (unix : Bool) (stamp : ℕ) (names : List Text)
    (bytes partial dir name : Text) where
  abbrev pub exe : Text
  exe = in_dir dir name

  abbrev halted : Option Text → Disk → Disk
  halted existing d = stop_existing sha stop unix stamp names bytes partial existing d

  abbrev pub place : Disk → Result Bool Text × Disk
  place d = place_binary sha stop unix stamp names bytes partial exe (some (dir, name)) d

  module _ (still : (t : Text) (d : Disk) → Same t d (stop d)) where
    halted-Same : (t : Text) (o : Option Text) (d : Disk) → Same t d (halted o d)
    halted-Same t none d = (refl, refl)
    halted-Same t (some h) d = still t d

    exe_ne_upload : exe ≢ upload_of exe
    exe_ne_upload e = upload-ne-target exe (sym e)

    place_new_err :
        (existing : Option Text) (d : Disk) (e : Text)
        → (place_new sha stop unix stamp names bytes partial exe (some (dir, name)) existing d).0
          ≡ err e
        → Kept exe stamp d
            (place_new sha stop unix stamp names bytes partial exe (some (dir, name)) existing d).1
    unfolding place_new
    place_new_err existing d e h =
        let P : Disk → Type 0 = Kept exe stamp d in
        let d1 : Disk = (create_dir_all d).1 in
        let d2 : Disk = (write (upload_of exe) bytes partial d1).1 in
        let d3 : Disk = (set_permissions unix d2).1 in
        let d4 : Disk = halted existing d3 in
        let s1 : Same exe d d1 = create_dir_all-Same exe d in
        let s2 : Same exe d d2 =
          Same-trans exe d d1 d2 s1
            (write-Same exe (upload_of exe) bytes partial d1 exe_ne_upload) in
        let s3 : Same exe d d3 = Same-trans exe d d2 d3 s2 (set_permissions-Same exe unix d2) in
        let s4 : Same exe d d4 = Same-trans exe d d3 d4 s3 (halted-Same exe existing d3) in
        then_do_err P (create_dir_all d) _ (inl s1.0)
          (λ _ _. then_do_err P (write (upload_of exe) bytes partial d1) _ (inl s2.0) (λ _ _.
            then_do_err P (set_permissions unix d2) _ (inl s3.0) (λ _ _.
              last_err P (swap_in dir name stamp names d4) (λ q.
                Kept-after exe stamp d d4 (swap_in dir name stamp names d4).1 s4
                  (swap_in_err dir name stamp names d4 e q)))))
          h

    place_new_ok :
        (existing : Option Text) (d : Disk) (b : Bool)
        → (place_new sha stop unix stamp names bytes partial exe (some (dir, name)) existing d).0
          ≡ ok b
        → Stands sha exe bytes b
            (place_new sha stop unix stamp names bytes partial exe (some (dir, name)) existing d).1
    unfolding place_new
    place_new_ok existing d b h =
        let P : Disk → Type 0 = Stands sha exe bytes b in
        let d1 : Disk = (create_dir_all d).1 in
        let d2 : Disk = (write (upload_of exe) bytes partial d1).1 in
        let d3 : Disk = (set_permissions unix d2).1 in
        let d4 : Disk = halted existing d3 in
        let s4 : Same (upload_of exe) d2 d4 =
          Same-trans (upload_of exe) d2 d3 d4 (set_permissions-Same (upload_of exe) unix d2)
            (halted-Same (upload_of exe) existing d3) in
        then_do_ok P (create_dir_all d) _
          (λ _ _. then_do_ok P (write (upload_of exe) bytes partial d1) _ (λ u w.
            then_do_ok P (set_permissions unix d2) _ (λ _ _.
              then_do_ok P (swap_in dir name stamp names d4) _ (λ v q _.
                let (c, up, at) = swap_in_ok dir name stamp names d4 q in
                let same : c ≡ bytes =
                  cc (up, s4.0, write_ok (upload_of exe) bytes partial d1 u w) in
                (c, at, ap sha same, λ _. same)))))
          h

    -- If stopping the running probe leaves the files of the disk and its answers: when putting the probe in
    -- place fails, the binary is what it was; or it stands under a name for the old binary, which happens only
    -- if some call of the disk fails.
    pub place_binary_err :
        (d : Disk) (e : Text) → (place d).0 ≡ err e → Kept exe stamp d (place d).1
    unfolding place_binary place_over
    place_binary_err d e =
        let d1 : Disk = (read exe d).1 in
        let existing : Option Text = hash_found sha (read exe d).0 in
        if_cases {A = Result Bool Text × Disk} (λ r. r.0 ≡ err e → Kept exe stamp d r.1)
          (existing == some (sha bytes)) (λ _ k. cc)
          (λ _ k.
            Kept-after exe stamp d d1
              (place_new sha stop unix stamp names bytes partial exe (some (dir, name)) existing
                d1).1
              (read-Same exe exe d) (place_new_err existing d1 e k))

    found_hash :
        (d : Disk)
        → hash_found sha (read exe d).0 ≡ some (sha bytes)
        → Stands sha exe bytes false (read exe d).1
    found_hash d h =
        let (c, r, q) = hash_found_ok sha (read exe d).0 (sha bytes) h in
        (c, (read-Same exe exe d).0 ∙ read_ok exe d c r, q, λ k. cc)

    -- If stopping the running probe leaves the files of the disk and its answers: when putting the probe in
    -- place succeeds, the binary at its path has the hash of the bundled one, and is the bundled one if a file
    -- is reported as written.
    pub place_binary_ok :
        (d : Disk) (b : Bool) → (place d).0 ≡ ok b → Stands sha exe bytes b (place d).1
    unfolding place_binary place_over
    place_binary_ok d b =
        let d1 : Disk = (read exe d).1 in
        let existing : Option Text = hash_found sha (read exe d).0 in
        if_cases {A = Result Bool Text × Disk} (λ r. r.0 ≡ ok b → Stands sha exe bytes b r.1)
          (existing == some (sha bytes))
          (λ y k.
            subst (λ z. Stands sha exe bytes z d1) (ok-injective k)
              (found_hash d ((option_beq_iff existing (some (sha bytes))).0 (ground (arith, y)))))
          (λ _. place_new_ok existing d1 b)
