-- ===== src/HostKey/Examples.antt =====
-- crates/mai-core/src/ssh/hostkey.rs: tests, and the theorems at concrete inputs.
use multi_ai.Base.{
  lines_loop, ℕ, ◌≡◌, refl, ◌↔◌, Bool, true, false, none, some, List, [], ◌∷◌, Text, text, any,
  nat_beq, decimal,
}
use multi_ai.HostKey.{
  known, unknown, changed, patterns, File, missing, contents, Keys, glob, match_patterns, lower,
  host_name, host_matches, judge, scan_line, scan_lines, scan, check_files, check,
}
use multi_ai.HostKey.Verdicts.{objects, vouches, check_lem}

-- A line is one letter: the key of the hosts named h.
abbrev letters : Keys ℕ
letters = record {
  parse = λ l. elim l [
    | [] ↦ none
    | c ∷ s ↦ some (record {
      host_patterns = patterns (text "h*" ∷ text "!hx" ∷ []);
      marker = none;
      public_key = c;
    })
  ];
  hashed_matches = λ salt hash name. false;
  same_key = nat_beq;
  same_algorithm = λ a b. true;
}

abbrev files : List (Text × File)
files = (text "user", missing) ∷ (text "global", contents (text "a")) ∷ []

-- What a check unfolds.
checks : Unit {0}
unfolding check check_files scan scan_lines scan_line judge host_matches match_patterns glob lower
    host_name lines_loop decimal
checks = tt

accepted : check letters files (text "H1") 22 b'a' ≡ known
unfolding checks
accepted = refl

refused : check letters files (text "h1") 22 b'b' ≡ changed (text "global") 1
unfolding checks
refused = refl

negated : check letters files (text "hx") 22 b'b' ≡ unknown
unfolding checks
negated = refl

check_lem_example :
    let name : Text = host_name (text "h1") 22 in
    let against : Bool = any (λ f. objects letters name b'a' f.1) files in
    let for : Bool = any (λ f. vouches letters name b'a' f.1) files in
    ((check letters files (text "h1") 22 b'a' ≡ known) ↔ ((against ≡ false) × (for ≡ true)))
    × ((check letters files (text "h1") 22 b'a' ≡ unknown) ↔ ((against ≡ false) × (for ≡ false)))
check_lem_example = check_lem letters files (text "h1") 22 b'a'
