-- ===== src/Scrape/Examples.antt =====
-- crates/mai-probe/src/scrape.rs: tests, and the theorems at concrete inputs.
use multi_ai.Base.{
  ℕ, ◌-◌, ◌≤◌, refl, [], ◌∷◌, Text, text, ok, starts_with, length, list_beq, option_beq,
}
use multi_ai.Map
use multi_ai.Protocol.{needs_input, PaneRef}
use multi_ai.Protocol.Equal.{pane_ref_beq}
use multi_ai.Scrape.{
  Engine, CompiledRule, clean, remove_ignored, rule, tell, observe_known, observe,
}
use multi_ai.Scrape.Observing.{watch, Steady, reported_stable}

-- A pattern matches the beginning of a text.
abbrev prefixes : Engine
prefixes = record {
  Regex = Text;
  new = λ p. ok p;
  is_match = λ p t. starts_with t p;
  remove_all = λ p t. t;
}

abbrev claude : CompiledRule prefixes
claude = record {
  name = text "claude";
  stable_ms = 100;
  title = [];
  screen = [];
  needs_input_res = text "Do you" ∷ [];
  done_res = [];
  ignore = [];
}

abbrev pane : PaneRef
pane = record { session = text "w"; pane_id = 3 }

abbrev asks : Text
asks = text "Do you want to proceed?"

-- What watching a pane unfolds.
watches : Unit {0}
unfolding watch observe observe_known tell rule clean remove_ignored starts_with pane_ref_beq
    list_beq option_beq Map.get Map.insert
watches = tt

reported_stable_example :
    (since : ℕ) × Steady prefixes length
      (claude ∷ [])
      (text "claude")
      pane
      claude
      (length asks)
      since
      ((asks, 0) ∷ [])
    × (100 ≤ 200 - since)
unfolding watches
reported_stable_example =
    reported_stable prefixes length (claude ∷ []) (text "claude") pane claude [] ((asks, 0) ∷ [])
      asks 200 needs_input refl refl refl (λ e. cc)
