-- ===== src/Base/Words.antt =====
-- `split_whitespace`, `split(char)`, and the ASCII case of texts.
use Prim.Native.Nat.{ℕ, ◌+◌, ◌-◌}
use mathlib.Core.Bool.{Bool, ◌&&◌, ◌||◌}
use mathlib.Core.List.{List, [], ◌∷◌, ◌++◌}
use multi_ai.Base.Tests.{nat_beq, leb, if◌then◌else◌}
use multi_ai.Base.Texts.{Text, is_whitespace}

-- A word that has a character.
abbrev cons_nonempty : Text → List Text → List Text
cons_nonempty [] ws = ws
cons_nonempty (c ∷ w) ws = (c ∷ w) ∷ ws

unfoldable pub words_from : Text → Text → List Text
unfolding is_whitespace
words_from acc [] = cons_nonempty acc []
words_from acc (c ∷ s) =
    let next = words_from [] s in
    let more = words_from (acc ++ c ∷ []) s in
    if is_whitespace c then cons_nonempty acc next else more

-- `str::split_whitespace`.
unfoldable pub split_whitespace : Text → List Text
unfolding words_from
split_whitespace s = words_from [] s

unfoldable pub split_from : ℕ → Text → Text → List Text
split_from c acc [] = acc ∷ []
split_from c acc (x ∷ s) =
    let next = split_from c [] s in
    let more = split_from c (acc ++ x ∷ []) s in if nat_beq x c then acc ∷ next else more

-- `str::split(c)`.
unfoldable pub split_char : ℕ → Text → List Text
unfolding split_from
split_char c s = split_from c [] s

abbrev pub lower_char : ℕ → ℕ
lower_char c = if leb 65 c && leb c 90 then c + 32 else c

abbrev pub upper_char : ℕ → ℕ
upper_char c = if leb 97 c && leb c 122 then c - 32 else c

-- `to_ascii_lowercase`, `to_ascii_uppercase`.
unfoldable pub lowercase : Text → Text
lowercase [] = []
lowercase (c ∷ s) = lower_char c ∷ lowercase s

unfoldable pub uppercase : Text → Text
uppercase [] = []
uppercase (c ∷ s) = upper_char c ∷ uppercase s

-- `is_ascii_hexdigit`.
abbrev pub is_hex : ℕ → Bool
is_hex c = (leb 48 c && leb c 57) || ((leb 97 c && leb c 102) || (leb 65 c && leb c 70))
