-- ===== src/Install/Settled.antt =====
-- crates/mai-probe/src/install.rs: installing the hooks a second time changes nothing (`merge_hooks`).
use multi_ai.Base.{
  ◌≡◌, ◌≢◌, refl, ap, sym, subst, ◌∙◌, Bool, true, some, List, [], ◌∷◌, Text, text, contains,
  list_beq_iff, ==_refl, list_eq, nat_eq, arith, All, ok, ◌>>=◌, >>=-eq-ok, ok-injective,
}
use multi_ai.Install.{
  Json, null, bool, number, string, array, object, Items, Fields, get_field, set_field, marker,
  list_of, table_of,
}
use multi_ai.Install.Editing.{merge_event, merge_events, merge_hooks}
use multi_ai.Install.Stripping.{get_field-set_field}
use multi_ai.Install.Again.{merged, merged_again, Settled, Settled-merge, set_twice}

pub get_field_set : (k : Text) (x : Json) (fs : Fields) → get_field k (set_field k x fs) ≡ some x
get_field_set k x fs = ground (arith, get_field-set_field k k x fs, ==_refl k)

pub get_field_other :
    (k j : Text) (x : Json) (fs : Fields) → j ≢ k → get_field j (set_field k x fs) ≡ get_field j fs
get_field_other k j x fs n = ground (arith, get_field-set_field k j x fs, list_beq_iff k j)

pub merge_event_ok :
    (command event : Text) (m : Bool) (hooks h : Fields)
    → merge_event command event m hooks ≡ ok h
    → (xs : Items) × ((list_of (get_field event hooks) ≡ ok xs)
        × (set_field event (array (merged m command xs)) hooks ≡ h))
unfolding merge_event
merge_event_ok command event m hooks h e =
    let (xs, l, q) = >>=-eq-ok (list_of (get_field event hooks)) _ e in (xs, (l, ok-injective q))

merge_settles :
    (command event : Text) (m : Bool) (hooks h : Fields)
    → contains command marker ≡ true
    → merge_event command event m hooks ≡ ok h
    → Settled command (event, m) h
merge_settles command event m hooks h c e =
    let (xs, (l, q)) = merge_event_ok command event m hooks h e in
    (
      merged m command xs,
      (
        ap (get_field event) (sym q) ∙ get_field_set event (array (merged m command xs)) hooks,
        merged_again m command xs c,
      ),
    )

merge_keeps :
    (command event : Text) (m : Bool) (hooks h : Fields) (other : Text × Bool)
    → other.0 ≢ event
    → merge_event command event m hooks ≡ ok h
    → Settled command other hooks
    → Settled command other h
merge_keeps command event m hooks h other n e (ys, (g, s)) =
    let (xs, (l, q)) = merge_event_ok command event m hooks h e in
    (
      ys,
      (
        ap (get_field other.0) (sym q)
            ∙ (get_field_other event other.0 (array (merged m command xs)) hooks n ∙ g),
        s,
      ),
    )

abbrev pub Distinct : List (Text × Bool) → Type 0
Distinct [] = Unit
Distinct ((event, m) ∷ rest) = All (λ x. event ≢ x.0) rest × Distinct rest

merge_events_keep :
    (command : Text) (events : List (Text × Bool)) (hooks h : Fields) (other : Text × Bool)
    → All (λ x. other.0 ≢ x.0) events
    → merge_events command events hooks ≡ ok h
    → Settled command other hooks
    → Settled command other h
unfolding merge_events
merge_events_keep command [] hooks h other n e s = subst (Settled command other) (ok-injective e) s
merge_events_keep command ((event, m) ∷ rest) hooks h other n e s =
    let (h1, e1, e2) = >>=-eq-ok (merge_event command event m hooks) _ e in
    merge_events_keep command rest h1 h other n.1 e2
      (merge_keeps command event m hooks h1 other n.0 e1 s)

merge_events_settle :
    (command : Text) (events : List (Text × Bool)) (hooks h : Fields)
    → contains command marker ≡ true
    → Distinct events
    → merge_events command events hooks ≡ ok h
    → All (λ x. Settled command x h) events
unfolding merge_events
merge_events_settle command [] hooks h c d e = tt
merge_events_settle command ((event, m) ∷ rest) hooks h c d e =
    let (h1, e1, e2) = >>=-eq-ok (merge_event command event m hooks) _ e in
    (
      merge_events_keep command rest h1 h (event, m) d.0 e2
          (merge_settles command event m hooks h1 c e1),
      merge_events_settle command rest h1 h c d.1 e2,
    )

Settled-events :
    (command : Text) (events : List (Text × Bool)) (h : Fields)
    → All (λ x. Settled command x h) events
    → merge_events command events h ≡ ok h
unfolding merge_events
Settled-events command [] h s = refl
Settled-events command ((event, m) ∷ rest) h s =
    ap (λ r. r >>= (λ g. merge_events command rest g)) (Settled-merge command event m h s.0)
    ∙ Settled-events command rest h s.1

-- A merge that succeeds: the tables before and after it.
pub merge_hooks_ok :
    (events : List (Text × Bool)) (command : Text) (root : Fields) (doc : Json)
    → merge_hooks events command (object root) ≡ ok doc
    → (h0 : Fields) × ((h : Fields) × ((table_of (get_field (text "hooks") root) ≡ ok h0)
          × ((merge_events command events h0 ≡ ok h)
              × (object (set_field (text "hooks") (object h) root) ≡ doc))))
unfolding merge_hooks
merge_hooks_ok events command root doc e =
    let (h, e1, e2) =
      >>=-eq-ok
        (table_of (get_field (text "hooks") root) >>= (λ hooks. merge_events command events hooks))
        _ e in
    let (h0, e3, e4) = >>=-eq-ok (table_of (get_field (text "hooks") root)) _ e1 in
    (h0, (h, (e3, (e4, ok-injective e2))))

merge_again :
    (events : List (Text × Bool)) (command : Text) (root h : Fields)
    → merge_events command events h ≡ ok h
    → merge_hooks events command (object (set_field (text "hooks") (object h) root))
      ≡ ok (object (set_field (text "hooks") (object h) root))
unfolding merge_hooks
merge_again events command root h e = ground (
  arith,
  get_field_set (text "hooks") (object h) root,
  e,
  set_twice (text "hooks") (object h) (object h) root,
)

-- A document that is no object is refused.
pub merge_object :
    (events : List (Text × Bool)) (command : Text) (doc doc' : Json)
    → merge_hooks events command doc ≡ ok doc'
    → (root : Fields) × (doc ≡ object root)
unfolding merge_hooks
merge_object events command (object root) doc' e = (root, refl)
merge_object events command null doc' e = cc
merge_object events command (bool b) doc' e = cc
merge_object events command (number n) doc' e = cc
merge_object events command (string t) doc' e = cc
merge_object events command (array xs) doc' e = cc

merge_root_again :
    (events : List (Text × Bool)) (command : Text) (root : Fields) (doc' : Json)
    → Distinct events
    → contains command marker ≡ true
    → merge_hooks events command (object root) ≡ ok doc'
    → merge_hooks events command doc' ≡ ok doc'
merge_root_again events command root doc' d c e =
    let (h0, (h, (t, (m, q)))) = merge_hooks_ok events command root doc' e in
    let s = Settled-events command events h (merge_events_settle command events h0 h c d m) in
    subst (λ x. merge_hooks events command x ≡ ok x) q (merge_again events command root h s)

-- Once our hooks are installed in a document, for distinct events and by a command that carries the marker,
-- installing them again leaves the document as it is.
pub merge_idempotent :
    (events : List (Text × Bool)) (command : Text) (doc doc' : Json)
    → Distinct events
    → contains command marker ≡ true
    → merge_hooks events command doc ≡ ok doc'
    → merge_hooks events command doc' ≡ ok doc'
merge_idempotent events command doc doc' d c e =
    let (root, r) = merge_object events command doc doc' e in
    merge_root_again events command root doc' d c
      (subst (λ x. merge_hooks events command x ≡ ok doc') r e)
