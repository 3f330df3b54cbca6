-- ===== src/Quoting/Splitting.antt =====
-- crates/mai-core/src/deploy.rs: a POSIX shell splits a joined command line into the arguments.
use mathlib.Core.List.{append_assoc, append-nil}
use multi_ai.Base.{
  ℕ, ◌≡◌, refl, ap, sym, ◌∙◌, Bool, true, false, not, Option, none, some, List, [], ◌∷◌, ◌++◌, map,
  arith, Text, nat_beq, any, if◌then◌else◌, Bool-cases, inl, inr,
}
use multi_ai.Protocol.{client_char, is_ascii_alphanumeric}
use multi_ai.Quoting.{
  posix, replace_quotes, sh_quote, quote_arg, is_plain, word_of, join_words, join_args,
}

-- What a character is to the shell outside of quotes. All but letters, digits, `-` and `_` may be
-- special to it, so that a line that has one unquoted has no splitting here.
pub data Class : Type 0 where
  blank quote_mark backslash word special : Class

abbrev pub class : ℕ → Class
class c =
    if nat_beq c b' '
    then blank
    else if nat_beq c 39
    then quote_mark
    else if nat_beq c 92
    then backslash
    else if client_char c
    then word
    else special

pub data Mode : Type 0 where
  outside quoted escaped : Mode

abbrev pub cons_word : Text → Option (List Text) → Option (List Text)
cons_word w none = none
cons_word w (some ws) = some (w ∷ ws)

-- The words of a line; `acc` is the word so far, and `started` tells whether there is one.
unfoldable pub split : Mode → Text → Bool → Text → Option (List Text)
split outside acc started [] = some (if started then acc ∷ [] else [])
split quoted acc started [] = none
split escaped acc started [] = none
split outside acc started (c ∷ s) = elim (class c) [
  | blank ↦ if started then cons_word acc (split outside [] false s) else split outside [] false s
  | quote_mark ↦ split quoted acc true s
  | backslash ↦ split escaped acc true s
  | word ↦ split outside (acc ++ c ∷ []) true s
  | special ↦ none
]
split quoted acc started (c ∷ s) = elim (nat_beq c 39) [
  | true ↦ split outside acc true s
  | false ↦ split quoted (acc ++ c ∷ []) true s
]
split escaped acc started (c ∷ s) = split outside (acc ++ c ∷ []) true s

split-quoted :
    (acc w rest : Text)
    → split quoted acc true (replace_quotes (39 ∷ 92 ∷ 39 ∷ 39 ∷ []) w ++ rest)
      ≡ split quoted (acc ++ w) true rest
unfolding split replace_quotes
split-quoted acc [] rest = rw append-nil
split-quoted acc (c ∷ w) rest = elim (Bool-cases (nat_beq c 39)) [
  | inl y ↦
      let q : c ≡ 39 = ground (arith, y) in
      rw q (
        split-quoted (acc ++ 39 ∷ []) w rest
        ∙ ap (λ a. split quoted a true rest) (append_assoc acc (39 ∷ []) w))
  | inr n ↦
      rw (n, split, n) (split-quoted (acc ++ c ∷ []) w rest)
      ∙ ap (λ a. split quoted a true rest) (append_assoc acc (c ∷ []) w)
]

pub split-sh_quote :
    (w rest : Text) → split outside [] false (sh_quote w ++ rest) ≡ split outside w true rest
unfolding split sh_quote
split-sh_quote w rest =
    ap (split quoted [] true)
      (append_assoc (replace_quotes (39 ∷ 92 ∷ 39 ∷ 39 ∷ []) w) (39 ∷ []) rest)
    ∙ split-quoted [] w (39 ∷ rest)

class_word : (c : ℕ) → client_char c ≡ true → class c ≡ word
unfolding client_char is_ascii_alphanumeric
class_word c h = ground arith

split_word :
    (acc : Text) (started : Bool) (c : ℕ) (s : Text)
    → class c ≡ word
    → split outside acc started (c ∷ s) ≡ split outside (acc ++ c ∷ []) true s
unfolding split
split_word acc started c s h = ground (arith, h)

split_plain :
    (acc w rest : Text) (started : Bool)
    → any (λ x. not (client_char x)) w ≡ false
    → split outside acc true (w ++ rest) ≡ split outside (acc ++ w) true rest
split_plain acc [] rest started h = rw append-nil
split_plain acc (c ∷ w) rest started h =
    let k : class c ≡ word = class_word c (ground arith) in
    split_word acc true c (w ++ rest) k
    ∙ (split_plain (acc ++ c ∷ []) w rest true (ground arith)
        ∙ ap (λ a. split outside a true rest) (append_assoc acc (c ∷ []) w))

split-is_plain :
    (w rest : Text)
    → is_plain w ≡ true
    → split outside [] false (w ++ rest) ≡ split outside w true rest
unfolding is_plain
split-is_plain [] rest h = cc
split-is_plain (c ∷ w) rest h =
    let k : class c ≡ word = class_word c (ground arith) in
    split_word [] false c (w ++ rest) k ∙ split_plain (c ∷ []) w rest true (ground arith)

split-word_of :
    (w rest : Text) → split outside [] false (word_of posix w ++ rest) ≡ split outside w true rest
unfolding quote_arg
split-word_of w rest = elim (Bool-cases (is_plain w)) [
  | inl y ↦ rw y (split-is_plain w rest y)
  | inr n ↦ rw n (split-sh_quote w rest)
]

-- Whatever the arguments are, empty ones, quotes and characters that are special to the shell
-- included, a POSIX shell splits the line that they are joined to into exactly these arguments.
pub split-join_args : (argv : List Text) → split outside [] false (join_args posix argv) ≡ some argv
unfolding split join_args
split-join_args [] = refl
split-join_args (w ∷ []) =
    ap (split outside [] false) (sym (append-nil (word_of posix w))) ∙ split-word_of w []
split-join_args (w ∷ x ∷ ws) =
    split-word_of w (b' ' ∷ join_words (map (word_of posix) (x ∷ ws)))
    ∙ ap (cons_word w) (split-join_args (x ∷ ws))
