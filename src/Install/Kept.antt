-- ===== src/Install/Kept.antt =====
-- crates/mai-probe/src/install.rs: both edits keep the user's hooks of every event, and after the removal none
-- of ours is left (`merge_hooks`, `remove_hooks`).
use mathlib.Core.List.{append-nil}
use multi_ai.Base.{
  ◌≡◌, refl, ap, sym, subst, ◌∙◌, inl, inr, Bool, true, Option, none, some, List, [], ◌∷◌, ◌++◌,
  Text, text, contains, ◌==◌, list_eq, nat_eq, ok, >>=-eq-ok, if◌then◌else◌, if_cases, Bool-cases,
}
use multi_ai.Install.{
  Json, null, bool, number, string, array, object, Items, Fields, end, field, get_field, set_field,
  marker, strip_ours, entry, list_of, table_of,
}
use multi_ai.Install.Editing.{merge_event, merge_events, merge_hooks}
use multi_ai.Install.Stripping.{user_hooks, user_hooks-strip_ours, user_hooks-push, entry_others}
use multi_ai.Install.Again.{merged}
use multi_ai.Install.Settled.{merge_event_ok, merge_hooks_ok, merge_object, get_field_set}

-- What a document holds of an event, by a view of the event's list.
module _ (view : Items → List Json) where
  abbrev pub view_in : Option Json → List Json
  view_in (some (array xs)) = view xs
  view_in _ = []

  abbrev pub view_at : Text → Fields → List Json
  view_at event end = []
  view_at event (field k x fs) =
      let rest = view_at event fs in if k == event then view_in (some x) ++ rest else rest

  abbrev pub view_table : Text → Option Json → List Json
  view_table event (some (object fs)) = view_at event fs
  view_table event _ = []

  abbrev pub view_doc : Text → Json → List Json
  view_doc event (object root) = view_table event (get_field (text "hooks") root)
  view_doc event _ = []

view_at-set_field :
    (view : Items → List Json) (event k : Text) (x : Json) (fs : Fields)
    → view_in view (some x) ≡ view_in view (get_field k fs)
    → view_at view event (set_field k x fs) ≡ view_at view event fs
view_at-set_field view event k x end h =
    if_cases (λ l. l ≡ []) (k == event) (λ _. append-nil (view_in view (some x)) ∙ h) (λ _. refl)
view_at-set_field view event k x (field i v fs) h = elim (Bool-cases (i == k)) [
  | inl y ↦
      let q : view_in view (some x) ≡ view_in view (some v) =
        h ∙ ap (λ b. view_in view (if b then some v else get_field k fs)) y in
      rw y (ap (λ l. if i == event then l ++ view_at view event fs else view_at view event fs) q)
  | inr n ↦
      let q : view_in view (some x) ≡ view_in view (get_field k fs) =
        h ∙ ap (λ b. view_in view (if b then some v else get_field k fs)) n in
      rw n (
        ap (λ l. if i == event then view_in view (some v) ++ l else l)
          (view_at-set_field view event k x fs q))
]

list_of_users :
    (o : Option Json) (xs : Items) → list_of o ≡ ok xs → view_in user_hooks o ≡ user_hooks xs
unfolding user_hooks
list_of_users none xs h = cc
list_of_users (some (array ys)) xs h = cc
list_of_users (some null) xs h = cc
list_of_users (some (bool b)) xs h = cc
list_of_users (some (number n)) xs h = cc
list_of_users (some (string t)) xs h = cc
list_of_users (some (object fs)) xs h = cc

merge_event_users :
    (command event e : Text) (m : Bool) (hooks h : Fields)
    → contains command marker ≡ true
    → merge_event command e m hooks ≡ ok h
    → view_at user_hooks event h ≡ view_at user_hooks event hooks
merge_event_users command event e m hooks h c q =
    let (xs, (l, r)) = merge_event_ok command e m hooks h q in
    let same : user_hooks (merged m command xs) ≡ view_in user_hooks (get_field e hooks) =
      user_hooks-push (strip_ours xs) (entry m command) (entry_others m command c)
      ∙ (user_hooks-strip_ours xs ∙ sym (list_of_users (get_field e hooks) xs l)) in
    ap (view_at user_hooks event) (sym r)
    ∙ view_at-set_field user_hooks event e (array (merged m command xs)) hooks same

merge_events_users :
    (command event : Text) (events : List (Text × Bool)) (hooks h : Fields)
    → contains command marker ≡ true
    → merge_events command events hooks ≡ ok h
    → view_at user_hooks event h ≡ view_at user_hooks event hooks
unfolding merge_events
merge_events_users command event [] hooks h c q = cc
merge_events_users command event ((e, m) ∷ rest) hooks h c q =
    let (h1, q1, q2) = >>=-eq-ok (merge_event command e m hooks) _ q in
    merge_events_users command event rest h1 h c q2
    ∙ merge_event_users command event e m hooks h1 c q1

table_users :
    (event : Text) (o : Option Json) (h : Fields)
    → table_of o ≡ ok h
    → view_table user_hooks event o ≡ view_at user_hooks event h
table_users event none h q = cc
table_users event (some (object fs)) h q = cc
table_users event (some (array ys)) h q = cc
table_users event (some null) h q = cc
table_users event (some (bool b)) h q = cc
table_users event (some (number n)) h q = cc
table_users event (some (string t)) h q = cc

pub set_table :
    (view : Items → List Json) (event : Text) (h root : Fields)
    → view_doc view event (object (set_field (text "hooks") (object h) root)) ≡ view_at view event h
set_table view event h root =
    ap (view_table view event) (get_field_set (text "hooks") (object h) root)

-- Installing our hooks, by a command that carries the marker, keeps the hooks that are not ours: for each event
-- they are the same ones, in the same order.
pub merge_keeps_users :
    (events : List (Text × Bool)) (command : Text) (doc doc' : Json)
    → contains command marker ≡ true
    → merge_hooks events command doc ≡ ok doc'
    → (event : Text) → view_doc user_hooks event doc' ≡ view_doc user_hooks event doc
merge_keeps_users events command doc doc' c e event =
    let (root, r) = merge_object events command doc doc' e in
    let (h0, (h, (t, (m, q)))) =
      merge_hooks_ok events command root doc'
        (subst (λ x. merge_hooks events command x ≡ ok doc') r e) in
    ap (view_doc user_hooks event) (sym q)
    ∙ (set_table user_hooks event h root
        ∙ (merge_events_users command event events h0 h c m
            ∙ (sym (table_users event (get_field (text "hooks") root) h0 t)
                ∙ ap (view_doc user_hooks event) (sym r))))
