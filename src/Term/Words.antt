-- ===== src/Term/Words.antt =====
-- crates/mai-core/src/term.rs: the words of the command line that attaches to a session.
use multi_ai.Base.{
  ◌≡◌, refl, ap, none, ◌++◌, ◌∙◌, Bool, true, false, Option, some, List, [], ◌∷◌, Text, text,
}
use multi_ai.Quoting.{posix, invoke, join_args}
use multi_ai.Quoting.Splitting.{outside, split, split-sh_quote, split-join_args, cons_word}
use multi_ai.Term.{attach_argv, assignments, remote_attach_command}

split-invoke :
    (path : Text) (argv : List Text)
    → split outside [] false (invoke posix path (join_args posix argv)) ≡ some (path ∷ argv)
unfolding invoke split
split-invoke path argv =
    split-sh_quote path (b' ' ∷ join_args posix argv) ∙ ap (cons_word path) (split-join_args argv)

-- For a POSIX shell, whatever the session is called and wherever zellij is: on a server that takes the locale
-- variables the shell runs zellij, by its name if its path is not known, with `attach`, with `--create` exactly
-- if asked, and with the name of the session; on another server the same line follows the two assignments.
pub attach_words :
    (zellij : Text) (session : Text)
    → let run : Option Text → Bool → Bool → Text =
        λ z create env_accepted. remote_attach_command posix z session create env_accepted in
      (split outside [] false (run (some zellij) false true)
        ≡ some (zellij ∷ text "attach" ∷ session ∷ []))
      × (split outside [] false (run (some zellij) true true)
          ≡ some (zellij ∷ text "attach" ∷ text "--create" ∷ session ∷ []))
      × ((create : Bool) → run none create true ≡ run (some (text "zellij")) create true)
      × ((z : Option Text) (create : Bool)
          → run z create false ≡ text "LANG=en_US.UTF-8 LC_CTYPE=en_US.UTF-8 " ++ run z create true)
unfolding remote_attach_command attach_argv assignments
attach_words zellij session = (
  split-invoke zellij (text "attach" ∷ session ∷ []),
  split-invoke zellij (text "attach" ∷ text "--create" ∷ session ∷ []),
  λ create. refl,
  λ z create. refl,
)
