-- ===== src/Swap.antt =====
-- crates/mai-core/src/swap.rs: putting a new probe binary in place. `BinFiles` is a file system
-- whose calls may fail: each call asks an oracle, and the calls are counted. `LocalFiles` and
-- `SftpFiles` only forward to their libraries.
pub mod Names
pub mod Files
pub mod Aside
pub mod Stages
pub mod Faults
pub mod Safety
mod Examples
use multi_ai.Base.{
  ℕ, suc, ◌+◌, ◌≡◌, Bool, true, false, Option, none, some, List, [], ◌∷◌, ◌++◌, Text, text, decimal,
  starts_with, Result, ok, err, if◌then◌else◌, is_some, list_eq, nat_eq,
}
use multi_ai.Map
use multi_ai.Map.{Map}

-- What a call may do: go through, or fail with a message and change nothing.
pub record Disk : Type 0 where
  -- Contents by path.
  pub files : Map Text Text
  -- The outcome of the n-th call.
  pub fails : ℕ → Option Text
  pub calls : ℕ

-- An action: `io::Result`, and the disk afterwards.
abbrev pub Io : Type 0 → Type 0
Io A = Disk → Result A Text × Disk

abbrev pub ticked : Disk → Disk
ticked d = record d { calls = suc d.calls }

-- A call that fails by the oracle, or does its work.
abbrev pub call : {A : Type 0} → (Disk → Result A Text × Disk) → Io A
call work d = elim (d.fails d.calls) [ some e ↦ (err e, ticked d) | none ↦ work (ticked d) ]

unfoldable pub exists : Text → Io Bool
exists path = call (λ d. (ok (is_some (Map.get path d.files)), d))

unfoldable pub remove : Text → Io (Unit {0})
remove path = call (λ d. elim (Map.get path d.files) [
  | none ↦ (err (text "not found"), d)
  | some c ↦ (ok tt, record d { files = Map.remove path d.files })
])

-- `rename` replaces the target.
unfoldable pub rename : Text → Text → Io (Unit {0})
rename from to = call (λ d. elim (Map.get from d.files) [
  | none ↦ (err (text "not found"), d)
  | some c ↦ (ok tt, record d { files = Map.insert to c (Map.remove from d.files) })
])

-- The names that `list` reports are the caller's: any list.
unfoldable pub list : List Text → Io (List Text)
list names = call (λ d. (ok names, d))

-- `format!("{dir}/{name}")` and the names of a swap.
abbrev pub in_dir : Text → Text → Text
in_dir dir name = dir ++ (b'/' ∷ name)

abbrev pub upload_of : Text → Text
upload_of target = target ++ text ".upload"

abbrev pub old_of : Text → Text
old_of target = target ++ text ".old"

abbrev pub stamped_of : Text → ℕ → Text
stamped_of target stamp = target ++ (text ".old-" ++ decimal stamp)

-- `let _ = files.remove(..)` for each leftover.
unfoldable pub remove_leftovers : Text → Text → List Text → Disk → Disk
remove_leftovers dir prefix [] d = d
remove_leftovers dir prefix (n ∷ ns) d =
    let rest = remove_leftovers dir prefix ns in
    if starts_with n prefix then rest (remove (in_dir dir n) d).1 else rest d

-- The first part: the leftovers, when the directory can be listed.
unfoldable pub clean : Text → Text → List Text → Disk → Disk
clean dir exe names d =
    let (r, d') = list names d in
    elim r [ err e ↦ d' | ok ns ↦ remove_leftovers dir (old_of exe) ns d' ]

-- The name to move the old binary to.
unfoldable pub aside_name : Text → ℕ → Io Text
aside_name target stamp d =
    let (r, d') = exists (old_of target) d in
    elim r [
      | err e ↦ (err e, d')
      | ok taken ↦ (ok (if taken then stamped_of target stamp else old_of target), d')
    ]

-- The second part: the old binary is moved aside, if there is one.
unfoldable pub move_aside : Text → ℕ → Io (Option Text)
move_aside target stamp d =
    let (r, d1) = exists target d in
    elim r [
      | err e ↦ (err e, d1)
      | ok false ↦ (ok none, d1)
      | ok true ↦
          let (n, d2) = aside_name target stamp d1 in
          elim n [
            | err e ↦ (err e, d2)
            | ok name ↦
                let (m, d3) = rename target name d2 in
                elim m [ err e ↦ (err e, d3) | ok _ ↦ (ok (some name), d3) ]
          ]
    ]

-- The new binary could not be moved in: the old one is put back.
unfoldable pub restore : Text → Option Text → Text → Io (Unit {0})
restore target none e d = (err e, d)
restore target (some name) e d =
    let (r, d') = rename name target d in
    elim r [
      | ok _ ↦ (err e, d')
      | err re ↦ (err (e ++ (text "; restoring " ++ (name ++ (text " also failed: " ++ re)))), d')
    ]

-- `let _ = files.remove(&name)` for the old binary.
unfoldable pub drop_old : Option Text → Disk → Disk
drop_old none d = d
drop_old (some name) d = (remove name d).1

-- The third part.
unfoldable pub move_in : Text → Option Text → Io (Unit {0})
move_in target aside d =
    let (r, d') = rename (upload_of target) target d in
    elim r [ err e ↦ restore target aside e d' | ok _ ↦ (ok tt, drop_old aside d') ]

-- `swap_in`; `names` is what the directory lists.
unfoldable pub swap_in : Text → Text → ℕ → List Text → Io (Unit {0})
swap_in dir exe stamp names d =
    let target : Text = in_dir dir exe in
    let (r, d') = move_aside target stamp (clean dir exe names d) in
    elim r [ err e ↦ (err e, d') | ok aside ↦ move_in target aside d' ]
