-- ===== src/Deploy/Asked.antt =====
-- crates/mai-core/src/deploy.rs: what a POSIX shell makes of the command that computes a hash (`hash_command`).
use mathlib.Core.List.{append-nil}
use multi_ai.Base.{◌≡◌, ap, sym, subst, ◌∙◌, false, some, List, [], ◌∷◌, Text, text}
use multi_ai.Protocol.{client_char}
use multi_ai.Quoting.{posix, replace_quotes, sh_quote}
use multi_ai.Quoting.Splitting.{outside, split, split-sh_quote, cons_word}
use multi_ai.Deploy.{Os, linux, mac_os, windows, Remote, hash_command}

-- The program and its arguments: the file is the last one.
abbrev pub hash_words : Os → Text → List Text
hash_words mac_os path = text "shasum" ∷ text "-a" ∷ text "256" ∷ path ∷ []
hash_words _ path = text "sha256sum" ∷ path ∷ []

-- A POSIX shell runs the program that computes the hash of this file.
abbrev pub Asks : Remote → Text → Type 0
Asks r path =
    r.shell ≡ posix
    → split outside [] false (hash_command r.os r.shell path) ≡ some (hash_words r.os path)

split_path : (path : Text) → split outside [] false (sh_quote path) ≡ some (path ∷ [])
unfolding split
split_path path =
    ap (split outside [] false) (sym (append-nil (sh_quote path))) ∙ split-sh_quote path []

by_os :
    (os : Os) (path : Text)
    → split outside [] false (hash_command os posix path) ≡ some (hash_words os path)
unfolding hash_command split client_char replace_quotes
by_os linux path = ap (cons_word (text "sha256sum")) (split_path path)
by_os windows path = ap (cons_word (text "sha256sum")) (split_path path)
by_os mac_os path =
    ap (λ ws. cons_word (text "shasum") (cons_word (text "-a") (cons_word (text "256") ws)))
      (split_path path)

pub hash_command-Asks : (r : Remote) (path : Text) → Asks r path
hash_command-Asks r path h =
    subst (λ s. split outside [] false (hash_command r.os s path) ≡ some (hash_words r.os path))
      (sym h) (by_os r.os path)
