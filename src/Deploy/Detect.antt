-- ===== src/Deploy/Detect.antt =====
-- crates/mai-core/src/deploy.rs: what the detection commands print, and what is read from it.
use multi_ai.Base.{
  Bool, ◌&&◌, ◌||◌, not, Option, none, some, List, [], ◌∷◌, ◌++◌, map, Text, text, trim, lines_loop,
  starts_with, any, find, length, nat_beq, ◌==◌, list_eq, nat_eq, Result, ok, err, if◌then◌else◌,
  split_whitespace, lowercase, uppercase, is_hex,
}
use multi_ai.Quoting.{Shell, cmd}
use multi_ai.Deploy.{Os, linux, mac_os, DeployError, detect}

unfoldable pub normalize_arch : Text → Option Text
unfolding trim lowercase
normalize_arch raw =
    let a : Text = lowercase (trim raw) in
    if (a == text "x86_64") || (a == text "amd64")
    then some (text "x86_64")
    else if (a == text "aarch64") || (a == text "arm64")
    then some (text "aarch64")
    else none

abbrev pub with_os : Option Os → Option Text → Option (Os × Text)
with_os (some os) (some arch) = some (os, arch)
with_os _ _ = none

abbrev pub kernel_os : Text → Option Os
kernel_os k =
    if k == text "Linux" then some linux else if k == text "Darwin" then some mac_os else none

abbrev pub uname_words : List Text → Option (Os × Text)
uname_words (kernel ∷ machine ∷ rest) = with_os (kernel_os kernel) (normalize_arch machine)
uname_words _ = none

unfoldable pub parse_uname : Text → Option (Os × Text)
unfolding split_whitespace normalize_arch
parse_uname out = uname_words (split_whitespace out)

-- `t.len() == 64 && t.chars().all(..)`.
abbrev pub is_hash : Text → Bool
is_hash t = nat_beq (length t) 64 && not (any (λ c. not (is_hex c)) t)

abbrev pub lower_found : Option Text → Option Text
lower_found none = none
lower_found (some t) = some (lowercase t)

unfoldable pub parse_hash : Text → Option Text
unfolding split_whitespace lowercase
parse_hash out = lower_found (find is_hash (split_whitespace out))

abbrev pub begin_mark : Text
begin_mark = text "MAI-DETECT-BEGIN"

abbrev pub end_mark : Text
end_mark = text "MAI-DETECT-END"

unfoldable pub posix_detect_command : Text
posix_detect_command =
    text "uname -sm >/dev/null && echo "
    ++ (begin_mark ++ (text " && uname -sm && printf '%s\\n' \"$HOME\" && echo " ++ end_mark))

unfoldable pub windows_detect_command : Shell → Text
windows_detect_command cmd =
    text "echo "
    ++ (begin_mark
        ++ (text "& echo %PROCESSOR_ARCHITECTURE%& echo %USERPROFILE%& echo " ++ end_mark))
windows_detect_command _ =
    text "echo "
    ++ (begin_mark ++ (text "; $env:PROCESSOR_ARCHITECTURE; $env:USERPROFILE; echo " ++ end_mark))

-- The lines up to the end mark.
unfoldable pub until_end : List Text → List Text → Option (List Text)
until_end inner [] = none
until_end inner (l ∷ ls) =
    let more = until_end (inner ++ l ∷ []) ls in if l == end_mark then some inner else more

unfoldable pub between_marks : List Text → Option (List Text)
unfolding until_end
between_marks [] = none
between_marks (l ∷ ls) =
    let more = between_marks ls in if l == begin_mark then until_end [] ls else more

unfoldable pub marked_lines : Text → Option (List Text)
unfolding lines_loop trim between_marks
marked_lines out = between_marks (map trim (lines_loop [] out))

-- A Windows host whose login shell found Git's `uname`.
abbrev pub is_foreign : Text → Bool
is_foreign uname =
    any (λ p. starts_with (uppercase uname) p) (text "MINGW" ∷ text "MSYS" ∷ text "CYGWIN" ∷ [])

-- `Debug` of texts and of lists of texts are parameters.
module _ (debug : Text → Text) (debug_list : List Text → Text) where
  abbrev pub posix_parts :
      Text → Text → Option (Os × Text) → Result (Option (Os × (Text × Text))) DeployError
  posix_parts uname home none =
      err (detect (text "unsupported system (uname: " ++ (debug uname ++ text ")")))
  posix_parts uname [] (some (os, arch)) = err (detect (text "empty $HOME"))
  posix_parts uname (c ∷ home) (some (os, arch)) = ok (some (os, (arch, c ∷ home)))

  abbrev pub posix_block : Option (List Text) → Result (Option (Os × (Text × Text))) DeployError
  posix_block none = ok none
  posix_block (some []) = ok none
  posix_block (some (uname ∷ home ∷ [])) =
      if is_foreign uname then ok none else posix_parts uname home (parse_uname uname)
  posix_block (some lines) = err (detect (text "unexpected detection output: " ++ debug_list lines))

  unfoldable pub parse_posix_detect : Text → Result (Option (Os × (Text × Text))) DeployError
  unfolding marked_lines parse_uname starts_with uppercase
  parse_posix_detect out = posix_block (marked_lines out)

  abbrev pub windows_parts : Text → Text → Option Text → Result (Text × Text) DeployError
  windows_parts raw home none = err (detect (text "unknown CPU " ++ debug raw))
  windows_parts raw home (some arch) =
      if (home == []) || (lowercase home == text "%userprofile%")
      then err (detect (text "USERPROFILE is not set"))
      else ok (arch, home)

  abbrev pub windows_block : Text → Option (List Text) → Result (Text × Text) DeployError
  windows_block out none = err (detect (text "unexpected detection output: " ++ debug out))
  windows_block out (some (raw ∷ home ∷ [])) = windows_parts raw home (normalize_arch raw)
  windows_block out (some lines) =
      err (detect (text "unexpected detection output: " ++ debug_list lines))

  unfoldable pub parse_windows_detect : Text → Result (Text × Text) DeployError
  unfolding marked_lines normalize_arch lowercase
  parse_windows_detect out = windows_block out (marked_lines out)
