-- ===== src/Connect/Terminals.antt =====
-- crates/mai-core/src/connect.rs: the second connection, for terminals (`open_ssh_terminals`), and how it looks for
-- zellij (crates/mai-core/src/terminals.rs).
use multi_ai.Base.{
  ℕ, Bool, ◌&&◌, not, Option, none, some, List, [], ◌∷◌, ◌++◌, map, Text, text, trim, lines_loop,
  starts_with, contains, Result, ok, err, if◌then◌else◌,
}
use multi_ai.Quoting.{Shell, posix, join_words}
use multi_ai.Deploy.{Remote, SshError, ExecOutput}
use multi_ai.Deploy.Run.{Texts, detect_remote}
use multi_ai.Deploy.Whole.{Store}
use multi_ai.Connect.Opening.{
  HostKind, HostConfig, Connector, ConfigReader, Step, connect, run, Session, Opening, next_step,
  held, spec, over_session, over_deploy,
}
use multi_ai.Host.{OpenError}

abbrev pub zellij_dirs : List Text
zellij_dirs =
    text "/opt/homebrew/bin"
    ∷ text "/usr/local/bin"
    ∷ text "~/.cargo/bin"
    ∷ text "~/.local/bin"
    ∷ []

-- A directory under the home directory starts with `~/`.
abbrev pub drop_two : Text → Text
drop_two (a ∷ b ∷ rest) = rest
drop_two d = []

abbrev pub quoted_dir : Text → Text
quoted_dir d = if starts_with d (text "~/") then text "\"$HOME/" ++ (drop_two d ++ text "\"") else d

unfoldable pub find_zellij_script : Text
unfolding starts_with
find_zellij_script =
    text "command -v zellij || for d in "
    ++ (join_words (map quoted_dir zellij_dirs)
        ++ text
            "; do if [ -x \"$d/zellij\" ]; then echo \"$d/zellij\"; exit 0; fi; done; exec \"${SHELL:-sh}\" -lc \"command -v zellij\" </dev/null")

unfoldable pub find_zellij_command : Text
unfolding find_zellij_script
find_zellij_command = text "sh -c '" ++ (find_zellij_script ++ text "'")

abbrev pub is_path : Text → Bool
is_path l = starts_with l (text "/") && not (contains l (text " "))

abbrev pub or_else : Option Text → Text → Option Text
or_else (some later) l = some later
or_else none l = if is_path l then some l else none

-- `rfind`: the last line that is an absolute path.
abbrev pub last_path : List Text → Option Text
last_path [] = none
last_path (l ∷ ls) = or_else (last_path ls) l

unfoldable pub found_zellij : Text → Option Text
unfolding lines_loop trim starts_with contains
found_zellij out = last_path (map trim (lines_loop [] out))

pub data SystemTerminals : Type 0 where
  ssh : Remote → Option Text → SystemTerminals
  local : SystemTerminals

module _ {Config HostSpec : Type 0} (reader : ConfigReader Config HostSpec) (x : Texts)
    (store : Store) (debug : Option ℕ → Text) (c : Connector) (w : Session HostSpec) where
  -- A search that fails or takes too long finds nothing.
  abbrev pub searched : Option (Result ExecOutput SshError) → Option Text
  searched (some (ok out)) = found_zellij out.stdout
  searched _ = none

  abbrev pub look_for : Shell → List Step × Option Text
  look_for posix = (run find_zellij_command ∷ [], searched w.search)
  look_for _ = ([], none)

  abbrev pub search_on : Remote → Opening SystemTerminals
  search_on r = let (steps, found) = look_for r.shell in (steps, ok (SystemTerminals.ssh r found))

  unfoldable pub terminals_at : HostSpec → List Text → Opening SystemTerminals
  unfolding detect_remote found_zellij find_zellij_command
  terminals_at sp notes =
      next_step (over_session reader x store debug c w connect notes (w.connect sp)) λ _.
        next_step (over_deploy reader x store debug c w notes (detect_remote x w.answers)) search_on

  abbrev pub terminals_by :
      HostConfig → Result (HostSpec × List Text) OpenError → Opening SystemTerminals
  terminals_by host (err e) = ([], err e)
  terminals_by host (ok (sp, notes)) = held host.id (terminals_at sp notes)

  abbrev pub terminals_kind : HostConfig → HostKind → Opening SystemTerminals
  terminals_kind host HostKind.local = ([], ok SystemTerminals.local)
  terminals_kind host (HostKind.ssh t) = terminals_by host (spec reader x store debug c w t)

  unfoldable pub open_terminals : HostConfig → Opening SystemTerminals
  unfolding spec terminals_at
  open_terminals host = terminals_kind host host.kind
