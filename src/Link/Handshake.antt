-- ===== src/Link/Handshake.antt =====
-- crates/mai-core/src/link.rs: what the handshake accepts, and that it always ends.
use multi_ai.Base.{
  ◌+◌, ◌≤◌, ◌<◌, ◌≡◌, ◌∙◌, ap, none, some, List, [], ◌∷◌, ◌++◌, map, arith, Text, text, length,
  length-append, Result, ok, err, All, Option-cases, Result-cases, inl, inr, nat_beq, if◌then◌else◌,
}
use mathlib.Core.List.{append_assoc, append-nil}
use multi_ai.Protocol.{HelloInfo, ProbeMsg, hello, protocol_version}
use multi_ai.Protocol.Codec.{decode_line}
use multi_ai.Link.{
  LinkError, no_hello, protocol, Read, line, next_line, max_noise_lines, head_of, first_of_noise,
  greet, hello_from, await_hello,
}

module _ (from_str : Text → Result ProbeMsg Text) (debug : ProbeMsg → Text) where
  -- A line that is no protocol message.
  abbrev pub IsNoise : Text → Type 0
  IsNoise l = (e : Text) × (decode_line from_str l ≡ err e)

  greet_noise :
      (noise : List Text) (l : Text)
      → IsNoise l
      → length noise < max_noise_lines
      → greet from_str debug noise l ≡ none
  unfolding greet
  greet_noise noise l (e, d) few = rw (d, greet) (ground arith)

  -- Noise within the limit is skipped.
  hello_from_noise :
      (noise lines : List Text) (rest : List Read)
      → All IsNoise lines
      → length noise + length lines ≤ max_noise_lines
      → hello_from from_str debug noise (map line lines ++ rest)
        ≡ hello_from from_str debug (noise ++ lines) rest
  unfolding hello_from next_line
  hello_from_noise noise [] rest a few = rw append-nil
  hello_from_noise noise (l ∷ ls) rest a few =
      rw (greet_noise noise l a.0 (omega arith), hello_from)
        (hello_from_noise (noise ++ l ∷ []) ls rest a.1
            (omega (arith, length-append noise (l ∷ [])))
          ∙ ap (λ n. hello_from from_str debug n rest) (append_assoc noise (l ∷ []) ls))

  -- What the greeting is worth.
  abbrev pub verdict : HelloInfo → Result HelloInfo LinkError
  verdict info =
      if nat_beq info.protocol_version protocol_version
      then ok info
      else err (protocol info.protocol_version protocol_version)

  greet_hello :
      (noise : List Text) (l : Text) (info : HelloInfo)
      → decode_line from_str l ≡ ok (hello info)
      → greet from_str debug noise l ≡ some (verdict info)
  unfolding greet
  greet_hello noise l info d = rw (d, greet) (ground arith)

  -- After at most fifty lines that are no protocol messages, a greeting of the app's protocol
  -- version is accepted as it is, and one of another version is refused with both versions; what
  -- follows the greeting is left in the stream.
  pub hello_after_noise :
      (lines : List Text) (l : Text) (info : HelloInfo) (rest : List Read)
      → All IsNoise lines
      → length lines ≤ max_noise_lines
      → decode_line from_str l ≡ ok (hello info)
      → await_hello from_str debug (map line lines ++ line l ∷ rest) ≡ some (verdict info, rest)
  unfolding await_hello
  hello_after_noise lines l info rest a few d =
      hello_from_noise [] lines (line l ∷ rest) a (omega arith) ∙ accepted
    where
      accepted : hello_from from_str debug lines (line l ∷ rest) ≡ some (verdict info, rest)
      accepted = unfold hello_from next_line in rw (greet_hello lines l info d, hello_from)

  greet_full :
      (noise : List Text) (l : Text)
      → IsNoise l
      → length noise ≡ max_noise_lines
      → greet from_str debug noise l
        ≡ some (err (no_hello (text "unexpected output: " ++ head_of (first_of_noise noise l))))
  unfolding greet
  greet_full noise l (e, d) full = rw (d, greet) (ground arith)

  -- The fifty-first line that is no protocol message ends the handshake, with the first such line
  -- in the message.
  pub hello_too_noisy :
      (first : Text) (lines : List Text) (last : Text) (rest : List Read)
      → All IsNoise (first ∷ lines)
      → IsNoise last
      → length (first ∷ lines) ≡ max_noise_lines
      → await_hello from_str debug (map line (first ∷ lines) ++ line last ∷ rest)
        ≡ some (err (no_hello (text "unexpected output: " ++ head_of first)), rest)
  unfolding await_hello
  hello_too_noisy first lines last rest a b full =
      hello_from_noise [] (first ∷ lines) (line last ∷ rest) a (omega arith) ∙ refused
    where
      refused :
          hello_from from_str debug (first ∷ lines) (line last ∷ rest)
          ≡ some (err (no_hello (text "unexpected output: " ++ head_of first)), rest)
      refused =
          unfold hello_from next_line in rw (greet_full (first ∷ lines) last b full, hello_from)

  greet-none :
      (noise : List Text) (l : Text)
      → greet from_str debug noise l ≡ none
      → length noise < max_noise_lines
  unfolding greet
  greet-none noise l e = ground arith

  hello_from_decides :
      (noise : List Text) (reads : List Read)
      → max_noise_lines < length noise + length reads
      → length noise ≤ max_noise_lines
      → (x : Result HelloInfo LinkError × List Read) × (hello_from from_str debug noise reads
          ≡ some x)
  unfolding hello_from
  hello_from_decides noise [] many few = absurd (omega arith)
  hello_from_decides noise (r ∷ rs) many few = elim (Result-cases (next_line r)) [
    | inr (e, p) ↦ ((err e, rs), rw (p, hello_from))
    | inl (l, p) ↦ elim (Option-cases (greet from_str debug noise l)) [
      | inr (x, q) ↦ ((x, rs), rw (p, hello_from, q))
      | inl q ↦
          let (x, found) =
            hello_from_decides (noise ++ l ∷ []) rs (omega (arith, length-append noise (l ∷ [])))
              (omega (arith, length-append noise (l ∷ []), greet-none noise l q)) in
          (x, rw (p, hello_from, q) found)
    ]
  ]

  -- The handshake always ends: whatever the stream gives, fifty-one reads decide it.
  pub hello_decides :
      (reads : List Read)
      → max_noise_lines < length reads
      → (x : Result HelloInfo LinkError × List Read) × (await_hello from_str debug reads ≡ some x)
  unfolding await_hello
  hello_decides reads many = hello_from_decides [] reads (omega arith) (omega arith)
