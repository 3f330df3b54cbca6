-- ===== src/Scrape.antt =====
-- crates/mai-probe/src/scrape.rs: finding agents by their screens, and the states they show. The regex
-- engine and the hash of a screen are parameters.
pub mod Observing
mod Examples
use multi_ai.Base.{
  ℕ, ◌+◌, ◌-◌, Bool, true, false, ◌&&◌, ◌||◌, not, Option, none, some, List, [], ◌∷◌, Text, ltb,
  nat_beq, any, find, is_some_and, or_else, Result, ok, err, ◌>>=◌, ◌==◌, nat_eq, list_eq,
  option_eq, if◌then◌else◌,
}
use multi_ai.Map
use multi_ai.Map.{Map}
use multi_ai.Protocol.{AgentState, working, needs_input, done, AgentRule, ScrapeRules, PaneRef}
use multi_ai.Protocol.Equal.{state_beq, state_eq, pane_ref_eq}

-- The regex crate.
pub record Engine : Type 1 where
  pub Regex : Type 0
  pub new : Text → Result Regex Text
  pub is_match : Regex → Text → Bool
  -- `replace_all(text, "")`.
  pub remove_all : Regex → Text → Text

pub record RuleError : Type 0 where
  pub agent : Text
  pub pattern : Text
  pub source : Text

pub record PaneScrape : Type 0 where
  pub hash : ℕ
  pub stable_since_ms : ℕ
  pub emitted : Option AgentState

-- `ScrapeTracker`.
abbrev pub ScrapeTracker : Type 0
ScrapeTracker = Map PaneRef PaneScrape

-- `ScrapeTracker::forget` and `ScrapeTracker::reset`.
unfoldable pub forget : ScrapeTracker → PaneRef → ScrapeTracker
forget t pane = Map.remove pane t

abbrev pub reset : ScrapeTracker → ScrapeTracker
reset t = []

module _ (e : Engine) where
  pub record CompiledRule : Type 0 where
    pub name : Text
    pub stable_ms : ℕ
    pub title : List (e.Regex)
    pub screen : List (e.Regex)
    pub needs_input_res : List (e.Regex)
    pub done_res : List (e.Regex)
    pub ignore : List (e.Regex)

  unfoldable pub compile_all : Text → List Text → Result (List (e.Regex)) RuleError
  compile_all agent [] = ok []
  compile_all agent (p ∷ ps) =
      let rest = compile_all agent ps in
      elim (e.new p) [
        | err source ↦ err (record { agent = agent; pattern = p; source = source })
        | ok re ↦ rest >>= λ res. ok (re ∷ res)
      ]

  abbrev pub any_match : List (e.Regex) → Text → Bool
  any_match res t = any (λ r. e.is_match r t) res

  unfoldable pub compile_rule : AgentRule → Result CompiledRule RuleError
  compile_rule r = do
    title ← compile_all r.name r.title_patterns
    screen ← compile_all r.name r.screen_patterns
    waits ← compile_all r.name r.needs_input_patterns
    finished ← compile_all r.name r.done_patterns
    ignored ← compile_all r.name r.ignore_patterns
    ok (record {
      name = r.name;
      stable_ms = r.stable_ms;
      title = title;
      screen = screen;
      needs_input_res = waits;
      done_res = finished;
      ignore = ignored;
    })

  -- `CompiledRule::clean`.
  unfoldable pub remove_ignored : List (e.Regex) → Text → Text
  remove_ignored [] t = t
  remove_ignored (r ∷ rs) t =
      let cut = remove_ignored rs (e.remove_all r t) in
      let same = remove_ignored rs t in if e.is_match r t then cut else same

  unfoldable pub clean : CompiledRule → Text → Text
  clean r t = remove_ignored r.ignore t

  -- `CompiledRules::rule`.
  unfoldable pub rule : List CompiledRule → Text → Option CompiledRule
  rule rules name = find (λ r. r.name == name) rules

  abbrev titled : Text → Option Text → CompiledRule → Bool
  titled title command r = any_match r.title title || is_some_and command (λ c. any_match r.title c)

  abbrev name_of : Option CompiledRule → Option Text
  name_of none = none
  name_of (some r) = some r.name

  unfoldable pub identify_by_title : List CompiledRule → Text → Option Text → Option Text
  identify_by_title rules title command = name_of (find (titled title command) rules)

  unfoldable pub identify : List CompiledRule → Text → Option Text → Text → Option Text
  identify rules title command t =
      or_else (identify_by_title rules title command)
        (name_of (find (λ r. any_match r.screen t) rules))

  unfoldable pub still_matches : List CompiledRule → Text → Text → Option Text → Text → Bool
  still_matches rules agent title command t = elim (rule rules agent) [
    | none ↦ false
    | some r ↦
        let seen : Text = clean r t in
        titled title command r
        || (any_match r.screen seen
            || (any_match r.needs_input_res seen || any_match r.done_res seen))
  ]

  module _ (hash_screen : Text → ℕ) where
    -- The end of `observe`: a state is returned if it is not the one returned last.
    unfoldable pub tell :
        ScrapeTracker → PaneRef → PaneScrape → AgentState → ScrapeTracker × Option AgentState
    tell t pane p next =
        if p.emitted == some next
        then (Map.insert pane p t, none)
        else (Map.insert pane (record p { emitted = some next }) t, some next)

    -- `observe`, for a pane with history; `seen` is the cleaned screen.
    unfoldable pub observe_known :
        CompiledRule
        → ScrapeTracker
        → PaneRef
        → PaneScrape
        → Text
        → ℕ
        → ScrapeTracker × Option AgentState
    observe_known r t pane p seen now =
        if not (p.hash == hash_screen seen)
        then tell t pane (record p { hash = hash_screen seen; stable_since_ms = now }) working
        else if ltb (now - p.stable_since_ms) r.stable_ms
        then (t, none)
        else if any_match r.needs_input_res seen
        then tell t pane p needs_input
        else if any_match r.done_res seen
        then tell t pane p done
        else (Map.insert pane (record p { emitted = none }) t, none)

    -- `ScrapeTracker::observe`.
    unfoldable pub observe :
        ScrapeTracker
        → List CompiledRule
        → Text
        → PaneRef
        → Text
        → ℕ
        → ScrapeTracker × Option AgentState
    observe t rules agent pane t_screen now = elim (rule rules agent) [
      | none ↦ (t, none)
      | some r ↦
          let seen : Text = clean r t_screen in
          elim (Map.get pane t) [
            | none ↦ (
              Map.insert pane
                  (record { hash = hash_screen seen; stable_since_ms = now; emitted = none }) t,
              none,
            )
            | some p ↦ observe_known r t pane p seen now
          ]
    ]
