-- ===== src/Install/Removal.antt =====
-- crates/mai-probe/src/install.rs: removing our hooks keeps the user's, and leaves none of ours (`remove_hooks`).
use multi_ai.Base.{
  ◌≡◌, refl, ap, sym, ◌∙◌, inl, inr, true, Option, none, some, List, [], ◌∷◌, ◌++◌, Text, text,
  ◌==◌, list_eq, nat_eq, arith, ok, if◌then◌else◌, if_cases, Bool-cases, not, ◌||◌, nat_beq,
  ok-injective,
}
use multi_ai.Install.{
  Json, null, bool, number, string, array, object, Items, nil, cons, Fields, end, field, get_field,
  is_ours, retain_others, length, is_nil, strip_hooks, strip_field, strip_group, cons_some,
  strip_ours,
}
use multi_ai.Install.Editing.{strip_value, is_empty_list, strip_events, remove_hooks, remove_from}
use multi_ai.Install.Stripping.{user_hooks, user_hooks-strip_ours, hooks_set}
use multi_ai.Install.Kept.{view_in, view_at, view_table, view_doc, set_table}

-- The hooks of a list that are ours.
unfoldable pub ours : Items → List Json
ours nil = []
ours (cons h hs) = let rest = ours hs in if is_ours h then h ∷ rest else rest

abbrev ours_of : Option Json → List Json
ours_of (some (array hs)) = ours hs
ours_of _ = []

unfoldable pub group_ours : Json → List Json
unfolding ours
group_ours (object fs) = ours_of (get_field (text "hooks") fs)
group_ours _ = []

unfoldable pub our_hooks : Items → List Json
unfolding group_ours
our_hooks nil = []
our_hooks (cons g gs) = group_ours g ++ our_hooks gs

ours-retain_others : (hs : Items) → ours (retain_others hs) ≡ []
unfolding ours retain_others
ours-retain_others nil = refl
ours-retain_others (cons h hs) = ground (arith, ours-retain_others hs)

abbrev option_ours : Option Json → List Json
option_ours none = []
option_ours (some g) = group_ours g

strip_hooks_ours : (fs : Fields) (hs : Items) → option_ours (strip_hooks fs hs) ≡ []
unfolding group_ours
strip_hooks_ours fs hs =
    if_cases (λ o. option_ours o ≡ [])
      (nat_beq (length (retain_others hs)) (length hs) || not (is_nil (retain_others hs)))
      (λ _. ap ours_of (hooks_set fs (retain_others hs)) ∙ ours-retain_others hs) (λ _. refl)

strip_field_ours :
    (fs : Fields) (o : Option Json)
    → get_field (text "hooks") fs ≡ o
    → option_ours (strip_field fs o) ≡ []
unfolding group_ours
strip_field_ours fs none e = ap ours_of e
strip_field_ours fs (some null) e = ap ours_of e
strip_field_ours fs (some (bool b)) e = ap ours_of e
strip_field_ours fs (some (number n)) e = ap ours_of e
strip_field_ours fs (some (string t)) e = ap ours_of e
strip_field_ours fs (some (object o)) e = ap ours_of e
strip_field_ours fs (some (array hs)) e = strip_hooks_ours fs hs

strip_group_ours : (g : Json) → option_ours (strip_group g) ≡ []
unfolding group_ours strip_group
strip_group_ours null = refl
strip_group_ours (bool b) = refl
strip_group_ours (number n) = refl
strip_group_ours (string t) = refl
strip_group_ours (array xs) = refl
strip_group_ours (object fs) = strip_field_ours fs (get_field (text "hooks") fs) refl

cons_some_ours :
    (o : Option Json) (gs : Items)
    → option_ours o ≡ []
    → our_hooks gs ≡ []
    → our_hooks (cons_some o gs) ≡ []
unfolding our_hooks
cons_some_ours none gs h q = q
cons_some_ours (some g) gs h q = ap (λ x. x ++ our_hooks gs) h ∙ q

strip_ours_none : (gs : Items) → our_hooks (strip_ours gs) ≡ []
unfolding our_hooks strip_ours
strip_ours_none nil = refl
strip_ours_none (cons g gs) =
    cons_some_ours (strip_group g) (strip_ours gs) (strip_group_ours g) (strip_ours_none gs)

-- A view that is empty for the empty list does not see that empty lists are dropped.
view_empty :
    (view : Items → List Json) (x : Json)
    → view nil ≡ []
    → is_empty_list x ≡ true
    → view_in view (some x) ≡ []
view_empty view (array nil) v h = v
view_empty view (array (cons x xs)) v h = cc
view_empty view null v h = cc
view_empty view (bool b) v h = cc
view_empty view (number n) v h = cc
view_empty view (string t) v h = cc
view_empty view (object fs) v h = cc

view_strip_events :
    (view : Items → List Json) (event k : Text) (x : Json) (fs : Fields)
    → view nil ≡ []
    → view_at view event (strip_events (field k x fs))
      ≡ view_at view event (field k (strip_value x) (strip_events fs))
unfolding strip_events
view_strip_events view event k x fs v = elim (Bool-cases (is_empty_list (strip_value x))) [
  | inr n ↦ rw n refl
  | inl y ↦
      let rest : List Json = view_at view event (strip_events fs) in
      rw y (
        if_cases (λ l. rest ≡ l) (k == event)
          (λ _. sym (ap (λ l. l ++ rest) (view_empty view (strip_value x) v y))) (λ _. refl))
]

users_value : (x : Json) → view_in user_hooks (some (strip_value x)) ≡ view_in user_hooks (some x)
users_value (array xs) = user_hooks-strip_ours xs
users_value null = refl
users_value (bool b) = refl
users_value (number n) = refl
users_value (string t) = refl
users_value (object fs) = refl

ours_value : (x : Json) → view_in our_hooks (some (strip_value x)) ≡ []
ours_value (array xs) = strip_ours_none xs
ours_value null = refl
ours_value (bool b) = refl
ours_value (number n) = refl
ours_value (string t) = refl
ours_value (object fs) = refl

strip_events_users :
    (event : Text) (fs : Fields)
    → view_at user_hooks event (strip_events fs) ≡ view_at user_hooks event fs
unfolding strip_events user_hooks
strip_events_users event end = refl
strip_events_users event (field k x fs) =
    view_strip_events user_hooks event k x fs refl
    ∙ (ap
          (λ l.
            if k == event
            then l ++ view_at user_hooks event (strip_events fs)
            else view_at user_hooks event (strip_events fs))
          (users_value x)
        ∙ ap (λ r. if k == event then view_in user_hooks (some x) ++ r else r)
            (strip_events_users event fs))

strip_events_ours : (event : Text) (fs : Fields) → view_at our_hooks event (strip_events fs) ≡ []
unfolding strip_events our_hooks
strip_events_ours event end = refl
strip_events_ours event (field k x fs) =
    view_strip_events our_hooks event k x fs refl
    ∙ if_cases (λ l. l ≡ []) (k == event)
        (λ _.
          ap (λ l. l ++ view_at our_hooks event (strip_events fs)) (ours_value x)
          ∙ strip_events_ours event fs)
        (λ _. strip_events_ours event fs)

-- What a document holds after the removal of our hooks.
abbrev pub Removed : Text → Json → Json → Type 0
Removed event doc doc' =
    (view_doc user_hooks event doc' ≡ view_doc user_hooks event doc)
    × (view_doc our_hooks event doc' ≡ [])

Removed-from :
    (root : Fields) (o : Option Json) (doc' : Json) (event : Text)
    → get_field (text "hooks") root ≡ o
    → remove_from root o ≡ ok doc'
    → Removed event (object root) doc'
Removed-from root none doc' event e q =
    let r : doc' ≡ object root = sym (ok-injective q) in
    let empty : (view : Items → List Json) → view_doc view event doc' ≡ [] =
      λ view. ap (view_doc view event) r ∙ ap (view_table view event) e in
    (ap (view_doc user_hooks event) r, empty our_hooks)
Removed-from root (some (object hooks)) doc' event e q =
    let at : (view : Items → List Json)
        → view_doc view event doc' ≡ view_at view event (strip_events hooks) =
      λ view.
        ap (view_doc view event) (sym (ok-injective q))
        ∙ set_table view event (strip_events hooks) root in
    (
      at user_hooks ∙ (strip_events_users event hooks ∙ sym (ap (view_table user_hooks event) e)),
      at our_hooks ∙ strip_events_ours event hooks,
    )
Removed-from root (some null) doc' event e q = cc
Removed-from root (some (bool b)) doc' event e q = cc
Removed-from root (some (number n)) doc' event e q = cc
Removed-from root (some (string t)) doc' event e q = cc
Removed-from root (some (array xs)) doc' event e q = cc

-- Removing our hooks from any document leaves, for each event, the user's hooks in their order and none of ours.
pub remove_lem :
    (doc doc' : Json) → remove_hooks doc ≡ ok doc' → (event : Text) → Removed event doc doc'
unfolding remove_hooks
remove_lem (object root) doc' e event =
    Removed-from root (get_field (text "hooks") root) doc' event refl e
remove_lem null doc' e event = cc
remove_lem (bool b) doc' e event = cc
remove_lem (number n) doc' e event = cc
remove_lem (string t) doc' e event = cc
remove_lem (array xs) doc' e event = cc
