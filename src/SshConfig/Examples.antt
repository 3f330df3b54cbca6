-- ===== src/SshConfig/Examples.antt =====
-- crates/mai-core/src/ssh/config.rs: tests, and the theorems at concrete inputs.
use multi_ai.Base.{
  ◌≡◌, refl, none, some, ◌∷◌, ◌++◌, text, ok, list_beq, lines_loop, trim_start, is_whitespace,
  lowercase,
}
use multi_ai.SshConfig.{split_target, keyword, in_block, kept_lines, without_match_blocks}
use multi_ai.SshConfig.Targets.{split_target_host}

-- The user is `me@work`.
split_target_host_example :
    split_target (text "me@work" ++ 64 ∷ text "box")
    ≡ ok (record { user = some (text "me@work"); host = text "box"; port = none })
split_target_host_example =
    split_target_host (text "me@work") 98 (text "ox") refl (refl, (refl, (refl, tt)))
      (refl, (refl, (refl, tt)))

with_port_read :
    split_target (text "me@box:2222")
    ≡ ok (record { user = some (text "me"); host = text "box"; port = some 2222 })
unfolding split_target
with_port_read = refl

match_removed :
    without_match_blocks (text "Host a\n Port 1\nMatch all\n Port 2\nHost b\n")
    ≡ text "Host a\n Port 1\nHost b\n"
unfolding without_match_blocks kept_lines in_block keyword trim_start is_whitespace lowercase
    lines_loop list_beq
match_removed = refl
