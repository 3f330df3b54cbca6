-- ===== src/Connect/Placing.antt =====
-- crates/mai-core/src/connect.rs: putting the local probe in place (`place_binary`), on the disk of Swap.
use multi_ai.Base.{
  ℕ, ◌==◌, list_eq, nat_eq, option_eq, Bool, true, false, Option, none, some, List, Text, text,
  Result, ok, err, if◌then◌else◌,
}
use multi_ai.Map
use multi_ai.Swap.{Disk, Io, call, ticked, upload_of, swap_in}

abbrev pub found : Option Text → Disk → Result Text Text × Disk
found none d = (err (text "not found"), d)
found (some c) d = (ok c, d)

unfoldable pub read : Text → Io Text
read path = call (λ d. found (Map.get path d.files) d)

unfoldable pub create_dir_all : Io (Unit {0})
create_dir_all = call (λ d. (ok tt, d))

abbrev pub put : Text → Text → Disk → Disk
put path c d = record d { files = Map.insert path c d.files }

-- A write that fails may leave any content, `partial`.
abbrev pub write_by : Option Text → Text → Text → Text → Disk → Result (Unit {0}) Text × Disk
write_by none path bytes partial d = (ok tt, put path bytes d)
write_by (some e) path bytes partial d = (err e, put path partial d)

unfoldable pub write : Text → Text → Text → Io (Unit {0})
write path bytes partial d = write_by (d.fails d.calls) path bytes partial (ticked d)

-- Only on Unix.
unfoldable pub set_permissions : Bool → Io (Unit {0})
set_permissions unix d = if unix then call (λ d. (ok tt, d)) d else (ok tt, d)

-- `?`.
abbrev pub then_do :
    {A B : Type 0} → Result A Text × Disk → (A → Disk → Result B Text × Disk) → Result B Text × Disk
then_do (err e, d) next = (err e, d)
then_do (ok a, d) next = next a d

abbrev pub hash_found : (Text → Text) → Result Text Text → Option Text
hash_found sha (ok c) = some (sha c)
hash_found sha (err e) = none

-- `sha` is `sha256_hex`, and `stop` what the running probe does to the disk when it is told to stop.
module _ (sha : Text → Text) (stop : Disk → Disk) (unix : Bool) (stamp : ℕ) (names : List Text)
    (bytes partial : Text) where
  abbrev pub stop_existing : Option Text → Disk → Disk
  stop_existing none d = d
  stop_existing (some h) d = stop d

  -- `parts` are the directory and the name of `exe`.
  unfoldable pub place_new :
      Text → Option (Text × Text) → Option Text → Disk → Result Bool Text × Disk
  unfolding create_dir_all write set_permissions swap_in
  place_new exe none existing d = (err (text "probe path has no directory"), d)
  place_new exe (some (dir, name)) existing d = then_do (create_dir_all d) λ _ d1.
      then_do (write (upload_of exe) bytes partial d1) λ _ d2.
        then_do (set_permissions unix d2) λ _ d3.
          then_do (swap_in dir name stamp names (stop_existing existing d3)) λ _ d4. (ok true, d4)

  unfoldable pub place_over :
      Text → Option (Text × Text) → Option Text → Disk → Result Bool Text × Disk
  unfolding place_new
  place_over exe parts existing d =
      if existing == some (sha bytes) then (ok false, d) else place_new exe parts existing d

  unfoldable pub place_binary : Text → Option (Text × Text) → Disk → Result Bool Text × Disk
  unfolding read place_over
  place_binary exe parts d = let (r, d1) = read exe d in place_over exe parts (hash_found sha r) d1
