-- ===== src/Connect/Whole.antt =====
-- crates/mai-core/src/connect.rs: which failures of any connection are retried (`open`, `open_terminals`).
use multi_ai.Base.{
  ap, ◌≡◌, ◌⊎◌, true, false, Option, none, some, List, [], ◌∷◌, Text, if_cases, map, trim,
  lines_loop,
}
use multi_ai.Connect.Opening.{Opening}
use multi_ai.Connect.Local.{Machine}
use multi_ai.Connect.Terminals.{is_path, or_else, last_path, found_zellij}

-- The probe of this machine was not started, or without its pipes.
abbrev pub Unstarted : Machine → Type 0
Unstarted v = ((e : Text) × (v.spawn ≡ some e)) ⊎ (v.pipes ≡ false)

some_eq : {a b : Text} → ◌≡◌ {A = Option Text} (some a) (some b) → a ≡ b
some_eq e = cc

or_else_path :
    (o : Option Text) (l z : Text)
    → (o ≡ some z → is_path z ≡ true)
    → or_else o l ≡ some z
    → is_path z ≡ true
or_else_path (some later) l z f h = f h
or_else_path none l z f h =
    if_cases {A = Option Text} (λ r. r ≡ some z → is_path z ≡ true) (is_path l)
      (λ y k. cc (ap is_path (some_eq k), y)) (λ _ k. cc) h

last_path_lem : (ls : List Text) (z : Text) → last_path ls ≡ some z → is_path z ≡ true
last_path_lem [] z h = cc
last_path_lem (l ∷ ls) z h = or_else_path (last_path ls) l z (last_path_lem ls z) h

-- What is found is an absolute path without spaces.
found_zellij_lem : (out z : Text) → found_zellij out ≡ some z → is_path z ≡ true
unfolding found_zellij
found_zellij_lem out z h = last_path_lem (map trim (lines_loop [] out)) z h
