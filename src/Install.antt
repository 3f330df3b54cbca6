-- ===== src/Install.antt =====
-- crates/mai-probe/src/install.rs: merging hook entries into an agent's JSON configuration, and removing
-- them. A JSON object is the list of its fields in the order of insertion. `apply` is given the document: reading
-- it and following its symbolic links are in Reading; writing it and its backup are not modelled.
pub mod Editing
pub mod Stripping
pub mod Again
pub mod Settled
pub mod Kept
pub mod Removal
pub mod Reading
mod Examples
use multi_ai.Base.{
  suc, ℕ, ◌≡◌, Bool, true, false, ◌&&◌, ◌||◌, not, Option, none, some, List, [], ◌∷◌, ◌++◌, Text,
  text, contains, nat_beq, ◌==◌, list_eq, nat_eq, is_some_and, Result, ok, err, if◌then◌else◌,
}

mutual
  pub data Json : Type 0 where
    null : Json
    bool : Bool → Json
    number : Text → Json
    string : Text → Json
    array : Items → Json
    object : Fields → Json

  pub data Items : Type 0 where
    nil : Items
    cons : Json → Items → Items

  pub data Fields : Type 0 where
    end : Fields
    field : Text → Json → Fields → Fields

abbrev pub get_field : Text → Fields → Option Json
get_field key end = none
get_field key (field k v fs) = if k == key then some v else get_field key fs

-- Writing a field: in its place, or at the end.
abbrev pub set_field : Text → Json → Fields → Fields
set_field key x end = field key x end
set_field key x (field k v fs) = if k == key then field k x fs else field k v (set_field key x fs)

-- `MARKER`, `CLAUDE_EVENTS`, `CODEX_EVENTS`.
abbrev pub marker : Text
marker = text ".mai/bin/mai-probe"

abbrev pub claude_events : List (Text × Bool)
claude_events =
    (text "SessionStart", false)
    ∷ (text "UserPromptSubmit", false)
    ∷ (text "PreToolUse", true)
    ∷ (text "PostToolUse", true)
    ∷ (text "Notification", false)
    ∷ (text "Stop", false)
    ∷ (text "SessionEnd", false)
    ∷ []

abbrev pub codex_events : List (Text × Bool)
codex_events =
    (text "SessionStart", false)
    ∷ (text "UserPromptSubmit", false)
    ∷ (text "PreToolUse", true)
    ∷ (text "PostToolUse", true)
    ∷ (text "PermissionRequest", true)
    ∷ (text "Stop", false)
    ∷ (text "Interrupt", false)
    ∷ (text "SessionEnd", false)
    ∷ []

pub data Outcome : Type 0 where
  installed removed unchanged : Outcome

unfoldable pub as_str : Outcome → Text
as_str installed = text "installed"
as_str removed = text "removed"
as_str unchanged = text "unchanged"

-- `replace('\\', "/")`.
abbrev pub slashes : Text → Text
slashes [] = []
slashes (c ∷ s) = (if nat_beq c 92 then 47 else c) ∷ slashes s

unfoldable pub hook_command : Text → Text → Text
hook_command exe agent = 34 ∷ (slashes exe ++ (34 ∷ (text " hook " ++ agent)))

unfoldable pub check_probe_exe : Bool → Text → Result (Unit {0}) Text
unfolding hook_command contains
check_probe_exe is_absolute exe =
    if not is_absolute
    then err (text "probe path is not absolute")
    else if not (contains (hook_command exe (text "x")) marker)
    then err (text "probe is not under .mai/bin; hooks would not be recognised")
    else ok tt

-- `and_then(Value::as_str).is_some_and(..)`.
abbrev marked : Option Json → Bool
marked (some (string c)) = contains c marker
marked _ = false

unfoldable pub is_ours : Json → Bool
unfolding contains
is_ours (object fs) = marked (get_field (text "command") fs)
is_ours _ = false

-- `retain(|h| !is_ours(h))`.
unfoldable pub retain_others : Items → Items
unfolding is_ours
retain_others nil = nil
retain_others (cons h hs) = let rest = retain_others hs in if is_ours h then rest else cons h rest

abbrev pub length : Items → ℕ
length nil = 0
length (cons x xs) = suc (length xs)

abbrev pub is_nil : Items → Bool
is_nil nil = true
is_nil (cons x xs) = false

-- A group with what is left of its hooks, if it is kept.
abbrev pub strip_hooks : Fields → Items → Option Json
strip_hooks fs hs =
    let hs' : Items = retain_others hs in
    if nat_beq (length hs') (length hs) || not (is_nil hs')
    then some (object (set_field (text "hooks") (array hs') fs))
    else none

abbrev pub strip_field : Fields → Option Json → Option Json
strip_field fs (some (array hs)) = strip_hooks fs hs
strip_field fs _ = some (object fs)

unfoldable pub strip_group : Json → Option Json
unfolding retain_others
strip_group (object fs) = strip_field fs (get_field (text "hooks") fs)
strip_group x = some x

abbrev pub cons_some : Option Json → Items → Items
cons_some none xs = xs
cons_some (some x) xs = cons x xs

unfoldable pub strip_ours : Items → Items
unfolding strip_group
strip_ours nil = nil
strip_ours (cons g gs) = cons_some (strip_group g) (strip_ours gs)

abbrev pub push : Items → Json → Items
push nil x = cons x nil
push (cons y ys) x = cons y (push ys x)

abbrev pub entry : Bool → Text → Json
entry with_matcher command =
    let hook : Json = object (
      field (text "type") (string (text "command"))
        (field (text "command") (string command) end)) in
    let hooks : Json = array (cons hook nil) in
    object (
      field (text "hooks") hooks
        (if with_matcher then field (text "matcher") (string (text "*")) end else end))

-- `entry(..).or_insert_with(..).as_array_mut()`, and the same for an object.
abbrev pub list_of : Option Json → Result Items Text
list_of none = ok nil
list_of (some (array xs)) = ok xs
list_of (some _) = err (text "a hook event is not a JSON array")

abbrev pub table_of : Option Json → Result Fields Text
table_of none = ok end
table_of (some (object fs)) = ok fs
table_of (some _) = err (text "\"hooks\" is not a JSON object")
