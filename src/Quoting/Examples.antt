-- ===== src/Quoting/Examples.antt =====
-- crates/mai-core/src/deploy.rs: tests, and the theorem at a concrete input.
use multi_ai.Base.{◌≡◌, refl, false, some, [], ◌∷◌, text}
use multi_ai.Quoting.{posix, join_args, sh_quote, replace_quotes, invoke}
use multi_ai.Quoting.Splitting.{outside, split, split-join_args}

quoted_path :
    invoke posix (text "/home/a b/mai-probe") (text "serve") ≡ text "'/home/a b/mai-probe' serve"
unfolding invoke sh_quote replace_quotes
quoted_path = refl

split-join_args_example :
    split outside [] false (join_args posix (text "attach" ∷ text "it's $x" ∷ [] ∷ []))
    ≡ some (text "attach" ∷ text "it's $x" ∷ [] ∷ [])
split-join_args_example = split-join_args (text "attach" ∷ text "it's $x" ∷ [] ∷ [])
