-- ===== src/Swap/Examples.antt =====
-- crates/mai-core/src/swap.rs: tests, and the theorems at concrete inputs.
use multi_ai.Base.{
  ℕ, ◌≡◌, refl, Option, none, some, List, [], ◌∷◌, Text, text, nat_beq, if◌then◌else◌, list_beq,
  starts_with, decimal,
}
use multi_ai.Map
use multi_ai.Swap.{
  Disk, exists, remove, rename, list, in_dir, upload_of, remove_leftovers, clean, aside_name,
  move_aside, restore, drop_old, move_in, swap_in,
}
use multi_ai.Swap.Files.{content}
use multi_ai.Swap.Safety.{Kept, swap_in_ok, swap_in_err}

-- What a swap unfolds.
swaps : Unit {0}
unfolding swap_in move_in drop_old restore move_aside aside_name clean remove_leftovers list rename
    remove exists Map.get Map.insert Map.remove list_beq starts_with decimal
swaps = tt

abbrev target : Text
target = in_dir (text "b") (text "p")

-- A binary, an upload and a leftover.
abbrev disk : (ℕ → Option Text) → Disk
disk fails = record {
  files =
      (target, text "v1")
      ∷ (upload_of target, text "v2")
      ∷ (in_dir (text "b") (text "p.old"), text "v0")
      ∷ [];
  fails = fails;
  calls = 0;
}

abbrev names : List Text
names = text "p.old" ∷ []

abbrev healthy : Disk
healthy = disk (λ n. none)

-- The call that moves the upload in is the sixth.
abbrev busy : Disk
busy = disk (λ n. if nat_beq n 5 then some (text "busy") else none)

-- Only the new binary is left.
replaced : (swap_in (text "b") (text "p") 2 names healthy).1.files ≡ (target, text "v2") ∷ []
unfolding swaps
replaced = refl

swap_in_ok_example :
    (c : Text) × (content (upload_of target) healthy ≡ some c)
    × (content target (swap_in (text "b") (text "p") 2 names healthy).1 ≡ some c)
unfolding swaps
swap_in_ok_example = swap_in_ok (text "b") (text "p") 2 names healthy refl

swap_in_err_example : Kept target 2 busy (swap_in (text "b") (text "p") 2 names busy).1
unfolding swaps
swap_in_err_example = swap_in_err (text "b") (text "p") 2 names busy (text "busy") refl
