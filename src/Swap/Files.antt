-- ===== src/Swap/Files.antt =====
-- crates/mai-core/src/swap.rs: what one file operation changes on the disk.
use multi_ai.Base.{
  ◌≡◌, ◌≢◌, ap, ◌∙◌, Bool, Option, none, some, List, list_eq, nat_eq, arith, Text, ok, err, is_some,
  list_beq_iff,
}
use multi_ai.Map
use multi_ai.Map.{get-remove, get-insert_self, get-insert_ne}
use multi_ai.Swap.{Disk, exists, remove, rename, list}

abbrev pub content : Text → Disk → Option Text
content p d = Map.get p d.files

pub exists-content : (q p : Text) (d : Disk) → content q (exists p d).1 ≡ content q d
unfolding exists
exists-content q p d = ground arith

pub list-content : (q : Text) (ns : List Text) (d : Disk) → content q (list ns d).1 ≡ content q d
unfolding list
list-content q ns d = ground arith

pub remove-content : (q p : Text) (d : Disk) → q ≢ p → content q (remove p d).1 ≡ content q d
unfolding remove
remove-content q p d h = ground (arith, get-remove p q d.files, list_beq_iff p q)

-- A rename that fails changes no content.
pub rename_err :
    (q a b : Text) (d : Disk) {e : Text}
    → (rename a b d).0 ≡ err e
    → content q (rename a b d).1 ≡ content q d
unfolding rename
rename_err q a b d h = ground arith

rename_files :
    (a b : Text) (d : Disk)
    → (rename a b d).0 ≡ ok tt
    → (c : Text) × (content a d ≡ some c)
      × ((rename a b d).1.files ≡ Map.insert b c (Map.remove a d.files))
unfolding rename
rename_files a b d h = ground arith

-- One that goes through moves the content of `a` to `b`.
pub rename_ok :
    (a b : Text) (d : Disk)
    → (rename a b d).0 ≡ ok tt
    → (c : Text) × (content a d ≡ some c)
      × (content b (rename a b d).1 ≡ some c)
      × ((q : Text) → q ≢ a → q ≢ b → content q (rename a b d).1 ≡ content q d)
rename_ok a b d h =
    let (c, p, f) = rename_files a b d h in
    (
      c,
      p,
      ap (Map.get b) f ∙ get-insert_self b c (Map.remove a d.files),
      λ q na nb.
          ap (Map.get q) f
          ∙ (get-insert_ne b q c (Map.remove a d.files) nb
              ∙ ground (arith, get-remove a q d.files, list_beq_iff a q)),
    )

-- A file that is there can be renamed unless the call fails.
pub rename_refused :
    (a b : Text) (d : Disk) {e c : Text}
    → content a d ≡ some c
    → (rename a b d).0 ≡ err e
    → d.fails d.calls ≡ some e
unfolding rename
rename_refused a b d p h = ground arith

-- The oracle is the same after every call.
pub exists-fails : (p : Text) (d : Disk) → (exists p d).1.fails ≡ d.fails
unfolding exists
exists-fails p d = ground arith

pub list-fails : (ns : List Text) (d : Disk) → (list ns d).1.fails ≡ d.fails
unfolding list
list-fails ns d = ground arith

pub remove-fails : (p : Text) (d : Disk) → (remove p d).1.fails ≡ d.fails
unfolding remove
remove-fails p d = ground arith

pub rename-fails : (a b : Text) (d : Disk) → (rename a b d).1.fails ≡ d.fails
unfolding rename
rename-fails a b d = ground arith

-- What `exists` answers.
pub exists_ok : (p : Text) (d : Disk) {b : Bool} → (exists p d).0 ≡ ok b → b ≡ is_some (content p d)
unfolding exists
exists_ok p d h = ground arith

pub exists_runs :
    (p : Text) (d : Disk) → d.fails d.calls ≡ none → (exists p d).0 ≡ ok (is_some (content p d))
unfolding exists
exists_runs p d h = ground arith
