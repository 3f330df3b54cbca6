-- ===== src/Hookmap.antt =====
-- crates/mai-probe/src/hookmap.rs: the agent state that one hook payload implies. A payload is a
-- serde_json value: what the code asks of it is a parameter.
use multi_ai.Base.{
  ℕ, Bool, true, false, not, Option, none, some, List, [], ◌∷◌, map, Text, text, find, take,
  or_else, unwrap_or, lines_loop, trim, ◌==◌, list_eq, nat_eq, if◌then◌else◌,
}
use multi_ai.Protocol.{AgentState, unknown, working, needs_input, done, exited}

-- `serde_json::Value`.
pub record Values : Type 1 where
  pub Value : Type 0
  pub get : Value → Text → Option Value
  pub as_str : Value → Option Text
  pub null : Value
  -- `from_value` to an AgentState.
  pub to_state : Value → Option AgentState

abbrev pub max_message_chars : ℕ
max_message_chars = 120

pub record Mapped : Type 0 where
  pub state : AgentState
  pub message : Option Text

abbrev pub mapped : AgentState → Option Text → Option Mapped
mapped s m = some (record { state = s; message = m })

abbrev pub and_then {ℓ κ} : {A : Type ℓ} {B : Type κ} → Option A → (A → Option B) → Option B
and_then none f = none
and_then (some a) f = f a

abbrev is_blank : Text → Bool
is_blank [] = true
is_blank (c ∷ s) = false

-- `short`.
unfoldable pub short : Option Text → Option Text
short t = and_then t (λ s.
    and_then (find (λ l. not (is_blank l)) (map trim (lines_loop [] s)))
      (λ l. some (take max_message_chars l)))

module _ (v : Values) where
  unfoldable pub str_field : v.Value → Text → Option Text
  str_field p key = and_then (v.get p key) v.as_str

  -- The events of both agents that tell nothing more than a state.
  abbrev is_one_of : Text → List Text → Bool
  is_one_of name names = elim (find (λ n. n == name) names) [ none ↦ false | some n ↦ true ]

  abbrev is_busy : Text → Bool
  is_busy name =
      is_one_of name (text "UserPromptSubmit" ∷ text "PreToolUse" ∷ text "PostToolUse" ∷ [])

  unfoldable pub map_notification : v.Value → Text → Option Mapped
  map_notification p kind =
      if kind == text "permission_prompt"
      then mapped needs_input (short (str_field p (text "message")))
      else if kind == text "idle_prompt"
      then mapped done none
      else none

  unfoldable pub map_claude : v.Value → Option Mapped
  map_claude p = and_then (str_field p (text "hook_event_name")) (λ name.
      if name == text "SessionStart"
      then mapped unknown none
      else if is_busy name
      then mapped working none
      else if name == text "Notification"
      then and_then (str_field p (text "notification_type")) (map_notification p)
      else if name == text "Stop"
      then mapped done (short (str_field p (text "last_assistant_message")))
      else if name == text "SessionEnd"
      then mapped exited none
      else none)

  unfoldable pub map_codex : v.Value → Option Mapped
  map_codex p = and_then (str_field p (text "hook_event_name")) (λ name.
      if name == text "SessionStart"
      then mapped unknown none
      else if is_busy name
      then mapped working none
      else if name == text "PermissionRequest"
      then mapped needs_input (
          short (
            or_else
              (str_field (unwrap_or (v.get p (text "tool_input")) v.null) (text "description"))
              (str_field p (text "tool_name"))))
      else if name == text "Stop"
      then mapped done (short (str_field p (text "last_assistant_message")))
      else if name == text "Interrupt"
      then mapped done none
      else if name == text "SessionEnd"
      then mapped exited none
      else none)

  unfoldable pub map_generic : v.Value → Option Mapped
  map_generic p =
      and_then (v.get p (text "state"))
        (λ s. and_then (v.to_state s) (λ st. mapped st (short (str_field p (text "message")))))

  unfoldable pub map_hook : Text → v.Value → Option Mapped
  map_hook agent payload =
      if agent == text "claude"
      then map_claude payload
      else if agent == text "codex"
      then map_codex payload
      else map_generic payload
