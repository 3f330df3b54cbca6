-- ===== src/Connect/Locale.antt =====
-- crates/mai-core/src/terminals.rs: the environment of a local terminal (`local_env_with`).
use multi_ai.Base.{
  ◌≡◌, arith, refl, sym, ◌∙◌, any, inl, inr, ◌||◌, Bool, true, false, Option, none, some, List, [],
  ◌∷◌, Text, text, lowercase, contains, ◌==◌, list_eq, nat_eq, list_beq, starts_with, if◌then◌else◌,
  Bool-cases,
}

abbrev pub Env : Type 0
Env = List (Text × Text)

abbrev pub nonempty : Option Text → Option Text
nonempty (some (c ∷ s)) = some (c ∷ s)
nonempty _ = none

abbrev pub or_next : Option Text → Option Text → Option Text
or_next (some v) next = some v
or_next none next = next

-- The first variable that is set and not empty.
abbrev pub first_set : (Text → Option Text) → List Text → Option Text
first_set var [] = none
first_set var (k ∷ ks) = or_next (nonempty (var k)) (first_set var ks)

unfoldable pub is_utf8 : Text → Bool
unfolding lowercase contains
is_utf8 v = contains (lowercase v) (text "utf-8") || contains (lowercase v) (text "utf8")

abbrev pub utf8_value : Option Text → Bool
utf8_value none = false
utf8_value (some v) = is_utf8 v

unfoldable pub has_utf8_locale : (Text → Option Text) → Bool
has_utf8_locale var =
    utf8_value (first_set var (text "LC_ALL" ∷ text "LC_CTYPE" ∷ text "LANG" ∷ []))

unfoldable pub fallback_locale : Bool → Text
fallback_locale linux = if linux then text "C.UTF-8" else text "en_US.UTF-8"

-- `windows` and `linux` are `cfg!(windows)` and `cfg!(target_os = "linux")`.
abbrev pub all_locale : Text → Option Text → Env
all_locale f none = []
all_locale f (some v) = (text "LC_ALL", f) ∷ []

unfoldable pub local_env_with : Bool → Bool → (Text → Option Text) → Env
unfolding has_utf8_locale fallback_locale
local_env_with windows linux var =
    let f : Text = fallback_locale linux in
    (text "TERM", text "xterm-256color")
    ∷ (if windows || has_utf8_locale var
        then []
        else (text "LANG", f)
          ∷ (text "LC_CTYPE", f)
          ∷ all_locale f (nonempty (var (text "LC_ALL"))))

-- The environment of the spawned process: what is added, over what is inherited.
abbrev pub inherited : Env → (Text → Option Text) → Text → Option Text
inherited [] var k = var k
inherited ((name, v) ∷ env) var k =
    let rest = inherited env var k in if name == k then some v else rest

fallback_utf8 : (linux : Bool) → is_utf8 (fallback_locale linux) ≡ true
unfolding is_utf8 fallback_locale contains lowercase starts_with
fallback_utf8 true = refl
fallback_utf8 false = refl

-- What is added for a locale that is not UTF-8.
abbrev added : Text → Option Text → Env
added f o =
    (text "TERM", text "xterm-256color") ∷ (text "LANG", f) ∷ (text "LC_CTYPE", f) ∷ all_locale f o

fallback_first :
    (linux : Bool) (rest : Option Text)
    → utf8_value (or_next (nonempty (some (fallback_locale linux))) rest) ≡ true
unfolding fallback_locale is_utf8 contains lowercase starts_with
fallback_first true rest = refl
fallback_first false rest = refl

added_utf8 :
    (linux : Bool) (var : Text → Option Text) (o : Option Text)
    → nonempty (var (text "LC_ALL")) ≡ o
    → has_utf8_locale (inherited (added (fallback_locale linux) o) var) ≡ true
unfolding has_utf8_locale list_beq
added_utf8 linux var (some v) q = fallback_first linux _
added_utf8 linux var none q =
    rw q (fallback_first linux (or_next (nonempty (some (fallback_locale linux))) none))

kept_utf8 :
    (var : Text → Option Text)
    → has_utf8_locale var ≡ true
    → has_utf8_locale (inherited ((text "TERM", text "xterm-256color") ∷ []) var) ≡ true
unfolding has_utf8_locale list_beq
kept_utf8 var h = h

abbrev pub value : Option Text → Text
value none = []
value (some v) = v

-- The first, unless it is empty.
abbrev pub preferred : Text → Text → Text
preferred [] w = w
preferred (c ∷ v) w = c ∷ v

-- The locale that POSIX gives the environment.
abbrev pub locale : (Text → Option Text) → Text
locale var =
    preferred (value (var (text "LC_ALL")))
      (preferred (value (var (text "LC_CTYPE"))) (value (var (text "LANG"))))

-- Its name tells that its encoding is UTF-8.
abbrev pub names_utf8 : Text → Bool
names_utf8 v = any (λ part. contains (lowercase v) part) (text "utf-8" ∷ text "utf8" ∷ [])

is_utf8_lem : (v : Text) → is_utf8 v ≡ names_utf8 v
unfolding is_utf8
is_utf8_lem v = ground arith

preferred_lem :
    (a o : Option Text) (w : Text)
    → utf8_value o ≡ names_utf8 w
    → utf8_value (or_next (nonempty a) o) ≡ names_utf8 (preferred (value a) w)
preferred_lem none o w q = q
preferred_lem (some []) o w q = q
preferred_lem (some (c ∷ v)) o w q = is_utf8_lem (c ∷ v)

utf8_last : (a : Option Text) → utf8_value (or_next (nonempty a) none) ≡ names_utf8 (value a)
unfolding contains lowercase starts_with
utf8_last none = refl
utf8_last (some []) = refl
utf8_last (some (c ∷ v)) = is_utf8_lem (c ∷ v)

locale_lem : (var : Text → Option Text) → has_utf8_locale var ≡ names_utf8 (locale var)
unfolding has_utf8_locale
locale_lem var =
    preferred_lem (var (text "LC_ALL")) _ _
      (preferred_lem (var (text "LC_CTYPE")) _ _ (utf8_last (var (text "LANG"))))

settled :
    (linux : Bool) (var : Text → Option Text)
    → let env : Env = local_env_with false linux var in
      (has_utf8_locale (inherited env var) ≡ true)
      × (has_utf8_locale var ≡ true
          → (k : Text) → (text "TERM" == k) ≡ false
          → inherited env var k ≡ var k)
unfolding local_env_with
settled linux var = elim (Bool-cases (has_utf8_locale var)) [
  | inl h ↦ rw h (kept_utf8 var h, λ _ k n. rw n refl)
  | inr h ↦ rw h (added_utf8 linux var (nonempty (var (text "LC_ALL"))) refl, λ y. cc y)
]

-- Unless it is on Windows, a terminal of this machine runs in a UTF-8 locale, whatever environment the app has; and
-- if the app's locale is UTF-8, all variables but `TERM` are the app's own.
pub local_env_utf8 :
    (linux : Bool) (var : Text → Option Text)
    → let env : Env = local_env_with false linux var in
      (names_utf8 (locale (inherited env var)) ≡ true)
      × (names_utf8 (locale var) ≡ true
          → (k : Text) → (text "TERM" == k) ≡ false
          → inherited env var k ≡ var k)
local_env_utf8 linux var =
    let (now, kept) = settled linux var in
    (
      sym (locale_lem (inherited (local_env_with false linux var) var)) ∙ now,
      λ h. kept (locale_lem var ∙ h),
    )
