-- ===== src/Quoting.antt =====
-- crates/mai-core/src/deploy.rs: command lines for the shells of remote hosts.
pub mod Splitting
mod Examples
use multi_ai.Base.{
  ℕ, Bool, true, false, ◌&&◌, ◌||◌, not, List, [], ◌∷◌, ◌++◌, map, Text, text, nat_beq, any,
  if◌then◌else◌,
}
use multi_ai.Protocol.{client_char}

pub data Shell : Type 0 where
  posix cmd power_shell : Shell

-- `s.replace('\'', with)`.
unfoldable pub replace_quotes : Text → Text → Text
replace_quotes with [] = []
replace_quotes with (c ∷ s) =
    let rest = replace_quotes with s in if nat_beq c 39 then with ++ rest else c ∷ rest

-- A single quote is the character 39, a double quote 34, and a backslash 92.
unfoldable pub sh_quote : Text → Text
sh_quote s = 39 ∷ (replace_quotes (39 ∷ 92 ∷ 39 ∷ 39 ∷ []) s ++ 39 ∷ [])

unfoldable pub quote_arg : Shell → Text → Text
unfolding sh_quote
quote_arg posix arg = sh_quote arg
quote_arg cmd arg = 34 ∷ (arg ++ 34 ∷ [])
quote_arg power_shell arg = 39 ∷ (replace_quotes (39 ∷ 39 ∷ []) arg ++ 39 ∷ [])

-- `Remote::invoke`.
unfoldable pub invoke : Shell → Text → Text → Text
unfolding sh_quote
invoke posix path args = sh_quote path ++ (b' ' ∷ args)
invoke cmd path args = (34 ∷ path) ++ (34 ∷ b' ' ∷ args)
invoke power_shell path args =
    (b'&' ∷ b' ' ∷ 39 ∷ replace_quotes (39 ∷ 39 ∷ []) path) ++ (39 ∷ b' ' ∷ args)

-- `plain`: the characters are those of a client's name.
unfoldable pub is_plain : Text → Bool
is_plain [] = false
is_plain (c ∷ s) = not (any (λ x. not (client_char x)) (c ∷ s))

abbrev pub word_of : Shell → Text → Text
word_of shell w = if is_plain w then w else quote_arg shell w

-- `join(" ")`.
abbrev pub join_words : List Text → Text
join_words [] = []
join_words (w ∷ []) = w
join_words (w ∷ x ∷ ws) = w ++ (b' ' ∷ join_words (x ∷ ws))

-- `Remote::join_args`.
unfoldable pub join_args : Shell → List Text → Text
join_args shell argv = join_words (map (word_of shell) argv)
