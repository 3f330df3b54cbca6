-- ===== src/Install/Again.antt =====
-- crates/mai-probe/src/install.rs: installing the hooks a second time changes nothing.
use multi_ai.Base.{
  ◌≡◌, refl, ap, ◌∙◌, Bool, true, ◌||◌, not, Option, none, some, Text, text, contains, list_beq,
  nat_beq, ==_refl, list_eq, nat_eq, arith, if_cases, ok, ◌>>=◌,
}
use multi_ai.Install.{
  Json, null, bool, number, string, array, object, Items, nil, cons, Fields, end, field, get_field,
  set_field, marker, is_ours, retain_others, length, is_nil, strip_hooks, strip_field, strip_group,
  cons_some, strip_ours, push, entry, list_of,
}
use multi_ai.Install.Editing.{merge_event}
use multi_ai.Install.Stripping.{hooks_set}

retain_twice : (hs : Items) → retain_others (retain_others hs) ≡ retain_others hs
unfolding retain_others
retain_twice nil = refl
retain_twice (cons h hs) = ground (arith, retain_twice hs)

pub set_twice :
    (k : Text) (x y : Json) (fs : Fields) → set_field k y (set_field k x fs) ≡ set_field k y fs
set_twice k x y end = ground (arith, ==_refl k)
set_twice k x y (field i v fs) = ground (arith, set_twice k x y fs)

-- Stripping a group again keeps it as it is.
abbrev Stripped : Json → Type 0
Stripped g = strip_group g ≡ some g

abbrev AllStripped : Option Json → Type 0
AllStripped none = Unit
AllStripped (some g) = Stripped g

strip_hooks_kept :
    (fs : Fields) (hs : Items)
    → retain_others hs ≡ hs
    → set_field (text "hooks") (array hs) fs ≡ fs
    → strip_hooks fs hs ≡ some (object fs)
strip_hooks_kept fs hs r q =
    if_cases (λ o. o ≡ some (object fs))
      (nat_beq (length (retain_others hs)) (length hs) || not (is_nil (retain_others hs)))
      (λ _.
        ap (λ h. some (object (set_field (text "hooks") (array h) fs))) r
        ∙ ap (λ f. some (object f)) q)
      (λ n. let l : length (retain_others hs) ≡ length hs = ap length r in ground (arith, n, l))

kept_group :
    (fs : Fields) (hs : Items)
    → retain_others hs ≡ hs
    → get_field (text "hooks") fs ≡ some (array hs)
    → set_field (text "hooks") (array hs) fs ≡ fs
    → Stripped (object fs)
unfolding strip_group
kept_group fs hs r g q = ap (strip_field fs) g ∙ strip_hooks_kept fs hs r q

strip_hooks_stripped : (fs : Fields) (hs : Items) → AllStripped (strip_hooks fs hs)
strip_hooks_stripped fs hs =
    if_cases AllStripped
      (nat_beq (length (retain_others hs)) (length hs) || not (is_nil (retain_others hs)))
      (λ _.
        kept_group (set_field (text "hooks") (array (retain_others hs)) fs) (retain_others hs)
          (retain_twice hs) (hooks_set fs (retain_others hs))
          (set_twice (text "hooks") (array (retain_others hs)) (array (retain_others hs)) fs))
      (λ _. tt)

strip_field_stripped :
    (fs : Fields) (o : Option Json)
    → get_field (text "hooks") fs ≡ o
    → AllStripped (strip_field fs o)
unfolding strip_group
strip_field_stripped fs none e = ap (strip_field fs) e
strip_field_stripped fs (some null) e = ap (strip_field fs) e
strip_field_stripped fs (some (bool b)) e = ap (strip_field fs) e
strip_field_stripped fs (some (number n)) e = ap (strip_field fs) e
strip_field_stripped fs (some (string t)) e = ap (strip_field fs) e
strip_field_stripped fs (some (object o)) e = ap (strip_field fs) e
strip_field_stripped fs (some (array hs)) e = strip_hooks_stripped fs hs

strip_group_stripped : (g : Json) → AllStripped (strip_group g)
unfolding strip_group
strip_group_stripped null = refl
strip_group_stripped (bool b) = refl
strip_group_stripped (number n) = refl
strip_group_stripped (string t) = refl
strip_group_stripped (array xs) = refl
strip_group_stripped (object fs) = strip_field_stripped fs (get_field (text "hooks") fs) refl

strip_cons_some :
    (o : Option Json) (gs : Items)
    → AllStripped o
    → strip_ours gs ≡ gs
    → strip_ours (cons_some o gs) ≡ cons_some o gs
unfolding strip_ours
strip_cons_some none gs h q = q
strip_cons_some (some g) gs h q = ap (λ x. cons_some x (strip_ours gs)) h ∙ ap (cons g) q

pub strip_twice : (gs : Items) → strip_ours (strip_ours gs) ≡ strip_ours gs
unfolding strip_ours
strip_twice nil = refl
strip_twice (cons g gs) =
    strip_cons_some (strip_group g) (strip_ours gs) (strip_group_stripped g) (strip_twice gs)

-- Our entry is stripped.
entry_strip :
    (m : Bool) (command : Text)
    → contains command marker ≡ true
    → strip_group (entry m command) ≡ none
unfolding strip_group retain_others is_ours list_beq
entry_strip m command h = ground (arith, h)

strip-push : (gs : Items) (g : Json) → strip_group g ≡ none → strip_ours (push gs g) ≡ strip_ours gs
unfolding strip_ours
strip-push nil g h = rw h refl
strip-push (cons x gs) g h = ap (cons_some (strip_group x)) (strip-push gs g h)

-- What an event's list is after a merge.
abbrev pub merged : Bool → Text → Items → Items
merged m command xs = push (strip_ours xs) (entry m command)

pub merged_again :
    (m : Bool) (command : Text) (xs : Items)
    → contains command marker ≡ true
    → merged m command (merged m command xs) ≡ merged m command xs
merged_again m command xs h =
    ap (λ ys. push ys (entry m command))
      (strip-push (strip_ours xs) (entry m command) (entry_strip m command h) ∙ strip_twice xs)

-- An event whose list a merge leaves as it is.
abbrev pub Settled : Text → Text × Bool → Fields → Type 0
Settled command (event, m) hooks =
    (xs : Items) × ((get_field event hooks ≡ some (array xs)) × (merged m command xs ≡ xs))

set_get_same : (k : Text) (x : Json) (fs : Fields) → get_field k fs ≡ some x → set_field k x fs ≡ fs
set_get_same k x end h = cc
set_get_same k x (field i v fs) h = ground (arith, set_get_same k x fs)

pub Settled-merge :
    (command event : Text) (m : Bool) (hooks : Fields)
    → Settled command (event, m) hooks
    → merge_event command event m hooks ≡ ok hooks
unfolding merge_event
Settled-merge command event m hooks (xs, (g, q)) =
    ap (λ o. list_of o >>= (λ ys. ok (set_field event (array (merged m command ys)) hooks))) g
    ∙ ap ok (ap (λ ys. set_field event (array ys) hooks) q ∙ set_get_same event (array xs) hooks g)
