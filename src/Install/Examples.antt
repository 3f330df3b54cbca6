-- ===== src/Install/Examples.antt =====
-- crates/mai-probe/src/install.rs: tests, and the theorems at concrete inputs.
use multi_ai.Base.{
  ◌≡◌, refl, Bool, true, false, List, [], ◌∷◌, Text, text, ok, contains, list_beq, starts_with,
}
use multi_ai.Install.{
  Json, string, array, object, Items, nil, cons, end, field, marker, entry, is_ours, retain_others,
  strip_group, strip_ours, hook_command,
}
use multi_ai.Install.Editing.{merge_event, merge_events, merge_hooks, strip_events, remove_hooks}
use multi_ai.Install.Stripping.{user_hooks}
use multi_ai.Install.Settled.{merge_idempotent}
use multi_ai.Install.Kept.{view_doc, merge_keeps_users}
use multi_ai.Install.Removal.{Removed, remove_lem}

abbrev command : Text
command = text "\"C:/Users/x/.mai/bin/mai-probe.exe\" hook claude"

windows_path :
    hook_command (text "C:\\Users\\x\\.mai\\bin\\mai-probe.exe") (text "claude") ≡ command
unfolding hook_command
windows_path = refl

abbrev a_hook : Text → Json
a_hook c = object (field (text "command") (string c) end)

abbrev group : Items → Json
group hs = object (field (text "hooks") (array hs) end)

-- A group that the user shares with an older entry of ours, and a group of ours alone.
abbrev doc_of : Items → Json
doc_of gs = object (
    field (text "model") (string (text "opus"))
      (field (text "hooks") (object (field (text "Stop") (array gs) end)) end))

abbrev before : Json
before = doc_of (
    cons (group (cons (a_hook (text "bell")) (cons (a_hook command) nil)))
      (cons (group (cons (a_hook command) nil)) nil))

abbrev after : Json
after = doc_of (cons (group (cons (a_hook (text "bell")) nil)) (cons (entry false command) nil))

abbrev stop_only : List (Text × Bool)
stop_only = (text "Stop", false) ∷ []

installs : merge_hooks stop_only command before ≡ ok after
unfolding merge_hooks merge_events merge_event strip_ours strip_group retain_others is_ours contains
    starts_with list_beq
installs = refl

ours_marked : contains command marker ≡ true
unfolding contains starts_with
ours_marked = refl

merge_idempotent_example : merge_hooks stop_only command after ≡ ok after
merge_idempotent_example =
    merge_idempotent stop_only command before after (tt, tt) ours_marked installs

merge_keeps_users_example :
    view_doc user_hooks (text "Stop") after ≡ view_doc user_hooks (text "Stop") before
merge_keeps_users_example =
    merge_keeps_users stop_only command before after ours_marked installs (text "Stop")

removes : remove_hooks after ≡ ok (doc_of (cons (group (cons (a_hook (text "bell")) nil)) nil))
unfolding remove_hooks strip_events strip_ours strip_group retain_others is_ours contains
    starts_with list_beq
removes = refl

remove_lem_example :
    Removed (text "Stop") after (doc_of (cons (group (cons (a_hook (text "bell")) nil)) nil))
remove_lem_example =
    remove_lem after (doc_of (cons (group (cons (a_hook (text "bell")) nil)) nil)) removes
      (text "Stop")
