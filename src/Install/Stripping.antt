-- ===== src/Install/Stripping.antt =====
-- crates/mai-probe/src/install.rs: stripping our hooks keeps the user's, and leaves none of ours.
use multi_ai.Base.{
  ◌≡◌, refl, ap, sym, ◌∙◌, Bool, true, ◌||◌, not, Option, none, some, List, [], ◌∷◌, ◌++◌, Text,
  text, contains, list_beq, nat_beq, ◌==◌, list_eq, nat_eq, list_beq_iff, ==_refl, arith,
  if◌then◌else◌, if_cases,
}
use multi_ai.Install.{
  Json, null, bool, number, string, array, object, Items, nil, cons, Fields, end, field, get_field,
  set_field, marker, is_ours, retain_others, length, is_nil, strip_hooks, strip_field, strip_group,
  cons_some, strip_ours, push, entry,
}

pub get_field-set_field :
    (k j : Text) (x : Json) (fs : Fields)
    → get_field j (set_field k x fs) ≡ (if k == j then some x else get_field j fs)
get_field-set_field k j x end = refl
get_field-set_field k j x (field i v fs) =
    ground
      (arith, list_beq_iff i k, list_beq_iff i j, list_beq_iff k j, get_field-set_field k j x fs)

-- The hooks of a list that are not ours.
unfoldable pub others : Items → List Json
others nil = []
others (cons h hs) = let rest = others hs in if is_ours h then rest else h ∷ rest

abbrev others_of : Option Json → List Json
others_of (some (array hs)) = others hs
others_of _ = []

unfoldable pub group_others : Json → List Json
unfolding others
group_others (object fs) = others_of (get_field (text "hooks") fs)
group_others _ = []

-- The user's hooks for an event, in order.
unfoldable pub user_hooks : Items → List Json
unfolding group_others
user_hooks nil = []
user_hooks (cons g gs) = group_others g ++ user_hooks gs

others-retain_others : (hs : Items) → others (retain_others hs) ≡ others hs
unfolding others retain_others
others-retain_others nil = refl
others-retain_others (cons h hs) = ground (arith, others-retain_others hs)

others-is_nil : (hs : Items) → is_nil hs ≡ true → others hs ≡ []
unfolding others
others-is_nil nil h = refl
others-is_nil (cons x hs) h = cc

abbrev option_others : Option Json → List Json
option_others none = []
option_others (some g) = group_others g

pub hooks_set :
    (fs : Fields) (hs : Items)
    → get_field (text "hooks") (set_field (text "hooks") (array hs) fs) ≡ some (array hs)
hooks_set fs hs =
    get_field-set_field (text "hooks") (text "hooks") (array hs) fs
    ∙ ap (λ b. if b then some (array hs) else get_field (text "hooks") fs) (==_refl (text "hooks"))

strip_hooks-others : (fs : Fields) (hs : Items) → option_others (strip_hooks fs hs) ≡ others hs
unfolding group_others
strip_hooks-others fs hs =
    if_cases (λ o. option_others o ≡ others hs)
      (nat_beq (length (retain_others hs)) (length hs) || not (is_nil (retain_others hs)))
      (λ _. ap others_of (hooks_set fs (retain_others hs)) ∙ others-retain_others hs)
      (λ n. sym (others-is_nil (retain_others hs) (ground (arith, n))) ∙ others-retain_others hs)

strip_field_others :
    (fs : Fields) (o : Option Json)
    → get_field (text "hooks") fs ≡ o
    → option_others (strip_field fs o) ≡ others_of o
unfolding group_others
strip_field_others fs none e = ap others_of e
strip_field_others fs (some null) e = ap others_of e
strip_field_others fs (some (bool b)) e = ap others_of e
strip_field_others fs (some (number n)) e = ap others_of e
strip_field_others fs (some (string t)) e = ap others_of e
strip_field_others fs (some (object o)) e = ap others_of e
strip_field_others fs (some (array hs)) e = strip_hooks-others fs hs

strip_group_others : (g : Json) → option_others (strip_group g) ≡ group_others g
unfolding group_others strip_group
strip_group_others null = refl
strip_group_others (bool b) = refl
strip_group_others (number n) = refl
strip_group_others (string t) = refl
strip_group_others (array xs) = refl
strip_group_others (object fs) = strip_field_others fs (get_field (text "hooks") fs) refl

user_hooks-cons_some :
    (o : Option Json) (gs : Items) → user_hooks (cons_some o gs) ≡ option_others o ++ user_hooks gs
unfolding user_hooks
user_hooks-cons_some none gs = refl
user_hooks-cons_some (some g) gs = refl

-- Stripping keeps the user's hooks.
pub user_hooks-strip_ours : (gs : Items) → user_hooks (strip_ours gs) ≡ user_hooks gs
unfolding user_hooks strip_ours
user_hooks-strip_ours nil = refl
user_hooks-strip_ours (cons g gs) =
    user_hooks-cons_some (strip_group g) (strip_ours gs)
    ∙ (ap (λ x. x ++ user_hooks (strip_ours gs)) (strip_group_others g)
        ∙ ap (λ x. group_others g ++ x) (user_hooks-strip_ours gs))

-- Our entry is recognised by its command.
pub entry_others :
    (m : Bool) (command : Text)
    → contains command marker ≡ true
    → group_others (entry m command) ≡ []
unfolding group_others others is_ours list_beq
entry_others m command h = ground (arith, h)

pub user_hooks-push :
    (gs : Items) (g : Json) → group_others g ≡ [] → user_hooks (push gs g) ≡ user_hooks gs
unfolding user_hooks
user_hooks-push nil g h = rw h refl
user_hooks-push (cons x gs) g h = ap (λ r. group_others x ++ r) (user_hooks-push gs g h)
