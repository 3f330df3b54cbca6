-- ===== src/Install/Editing.antt =====
-- crates/mai-probe/src/install.rs: the two edits of a document, and when the file is written
-- (`merge_hooks`, `remove_hooks`, `apply`, `install_file`, `uninstall_file`).
use multi_ai.Base.{
  Bool, false, Option, none, some, List, [], ◌∷◌, Text, text, Result, ok, err, ◌>>=◌, if◌then◌else◌,
}
use multi_ai.Install.{
  Json, object, array, Fields, end, field, get_field, set_field, is_nil, strip_ours, push, entry,
  list_of, table_of, Outcome, installed, removed, unchanged,
}

-- One event of the loop.
unfoldable pub merge_event : Text → Text → Bool → Fields → Result Fields Text
unfolding strip_ours
merge_event command event with_matcher hooks = list_of (get_field event hooks) >>= (λ xs.
    ok (set_field event (array (push (strip_ours xs) (entry with_matcher command))) hooks))

unfoldable pub merge_events : Text → List (Text × Bool) → Fields → Result Fields Text
unfolding merge_event
merge_events command [] hooks = ok hooks
merge_events command ((event, with_matcher) ∷ rest) hooks =
    merge_event command event with_matcher hooks >>= (λ h. merge_events command rest h)

unfoldable pub merge_hooks : List (Text × Bool) → Text → Json → Result Json Text
unfolding merge_events
merge_hooks events command (object root) =
    table_of (get_field (text "hooks") root)
    >>= (λ hooks. merge_events command events hooks)
    >>= (λ hooks. ok (object (set_field (text "hooks") (object hooks) root)))
merge_hooks events command _ = err (text "top level is not a JSON object")

abbrev pub strip_value : Json → Json
strip_value (array xs) = array (strip_ours xs)
strip_value x = x

abbrev pub is_empty_list : Json → Bool
is_empty_list (array xs) = is_nil xs
is_empty_list _ = false

-- Every event's list is stripped, and those that are empty are dropped.
unfoldable pub strip_events : Fields → Fields
unfolding strip_ours
strip_events end = end
strip_events (field k x fs) =
    let rest = strip_events fs in
    if is_empty_list (strip_value x) then rest else field k (strip_value x) rest

abbrev pub remove_from : Fields → Option Json → Result Json Text
remove_from root none = ok (object root)
remove_from root (some (object hooks)) =
    ok (object (set_field (text "hooks") (object (strip_events hooks)) root))
remove_from root (some _) = err (text "\"hooks\" is not a JSON object")

unfoldable pub remove_hooks : Json → Result Json Text
unfolding strip_events
remove_hooks (object root) = remove_from root (get_field (text "hooks") root)
remove_hooks _ = err (text "top level is not a JSON object")

-- Why a file was not edited: reading or writing it failed, or it has another shape.
pub data InstallError : Type 0 where
  file : Text → InstallError
  shape : Text → InstallError

-- `apply`: the outcome, and the document to write if there is one. `same` is the equality of JSON values,
-- `read` what reading gives, and `write` what writing gives.
module _ (same : Json → Json → Bool) where
  abbrev written : Outcome → Json → Option Text → Result (Outcome × Option Json) InstallError
  written outcome doc none = ok (outcome, some doc)
  written outcome doc (some x) = err (file x)

  abbrev edited :
      Outcome → Json → Option Text → Result Json Text → Result (Outcome × Option Json) InstallError
  edited outcome before write (err what) = err (shape what)
  edited outcome before write (ok after) =
      if same after before then ok (unchanged, none) else written outcome after write

  unfoldable pub apply :
      Outcome
      → (Json → Result Json Text)
      → Result Json Text
      → Option Text
      → Result (Outcome × Option Json) InstallError
  apply outcome edit (err x) write = err (file x)
  apply outcome edit (ok before) write = edited outcome before write (edit before)

  unfoldable pub install_file :
      List (Text × Bool)
      → Text
      → Result Json Text
      → Option Text
      → Result (Outcome × Option Json) InstallError
  unfolding apply merge_hooks
  install_file events command read write = apply installed (merge_hooks events command) read write

  unfoldable pub uninstall_file :
      Bool → Result Json Text → Option Text → Result (Outcome × Option Json) InstallError
  unfolding apply remove_hooks
  uninstall_file exists read write =
      if exists then apply removed remove_hooks read write else ok (unchanged, none)
