-- ===== src/Protocol/Codec.antt =====
-- crates/mai-protocol/src/codec.rs. serde_json is a parameter: a printer and a parser of one
-- message type, with what the code relies on.
use mathlib.Core.List.{append-nil, append_assoc}
use multi_ai.Base.{
  ◌>>=◌, >>=-eq-ok, ok-injective, sym, ℕ, ◌≡◌, refl, ap, ◌∙◌, Bool, false, ◌||◌, List, [], ◌∷◌,
  ◌++◌, map, arith, Text, nat_beq, Result, ok, if◌then◌else◌, any,
}

-- A line feed or a carriage return.
unfoldable pub is_line_end : ℕ → Bool
is_line_end c = nat_beq c 10 || nat_beq c 13

-- `str::trim_end_matches(['\r', '\n'])`.
trim_step : ℕ → Text → Text
unfolding is_line_end
trim_step c [] = if is_line_end c then [] else c ∷ []
trim_step c (d ∷ t) = c ∷ d ∷ t

unfoldable pub trim_line_end : Text → Text
unfolding trim_step
trim_line_end [] = []
trim_line_end (c ∷ s) = trim_step c (trim_line_end s)

module _ {ℓ κ} {M : Type ℓ} {E : Type κ} where
  unfoldable pub encode_line : (M → Result Text E) → M → Result Text E
  encode_line to_string msg = do s ← to_string msg; ok (s ++ 10 ∷ [])

  unfoldable pub decode_line : (Text → Result M E) → Text → Result M E
  decode_line from_str line = from_str (trim_line_end line)

-- serde_json escapes control characters inside strings, and a compact object has no other place
-- for them; what it prints it can parse.
pub record Json {ℓ κ} (M : Type ℓ) (E : Type κ) : Type (ℓ ⊔ κ) where
  pub to_string : M → Result Text E
  pub from_str : Text → Result M E
  pub one_line : (m : M) (s : Text) → to_string m ≡ ok s → any is_line_end s ≡ false
  pub from_str-to_string : (m : M) (s : Text) → to_string m ≡ ok s → from_str s ≡ ok m

-- Nothing is trimmed before the line feed of a text without line ends.
trim-append : (s : Text) → any is_line_end s ≡ false → trim_line_end (s ++ 10 ∷ []) ≡ s
unfolding trim_line_end is_line_end
trim-append [] h = refl
trim-append (c ∷ []) h = ground arith
trim-append (c ∷ d ∷ s) h = rw (trim-append (d ∷ s) (ground arith), trim_line_end)

trim_clean : (s : Text) → any is_line_end s ≡ false → trim_line_end s ≡ s
unfolding trim_line_end
trim_clean [] h = refl
trim_clean (c ∷ []) h = ground arith
trim_clean (c ∷ d ∷ s) h = rw (trim_clean (d ∷ s) (ground arith), trim_line_end)

-- The lines of a stream, as a reader that splits at line feeds sees them; a last piece without a
-- line feed is not complete.
unfoldable pub lines_from : Text → Text → List Text
lines_from acc [] = []
lines_from acc (c ∷ s) =
    let done = lines_from [] s in
    let more = lines_from (acc ++ c ∷ []) s in if nat_beq c 10 then acc ∷ done else more

lines_from-append :
    (acc s rest : Text)
    → any is_line_end s ≡ false
    → lines_from acc (s ++ 10 ∷ rest) ≡ (acc ++ s) ∷ lines_from [] rest
unfolding lines_from is_line_end
lines_from-append acc [] rest h = rw append-nil
lines_from-append acc (c ∷ s) rest h =
    ground (arith, lines_from-append (acc ++ c ∷ []) s rest, append_assoc acc (c ∷ []) s)

-- What a writer sends for a list of messages.
unfoldable pub encode_all {ℓ κ} :
    {M : Type ℓ} {E : Type κ} → (M → Result Text E) → List M → Result Text E
encode_all to_string [] = ok []
encode_all to_string (m ∷ ms) = do
  line ← encode_line to_string m
  rest ← encode_all to_string ms
  ok (line ++ rest)

module _ {ℓ κ} {M : Type ℓ} {E : Type κ} (j : Json M E) where
  open j use {to_string, from_str, one_line, from_str-to_string}

  encode_line-ok :
      (m : M) (line : Text)
      → encode_line to_string m ≡ ok line
      → (s : Text) × (line ≡ s ++ 10 ∷ []) × (any is_line_end s ≡ false) × (from_str s ≡ ok m)
  unfolding encode_line
  encode_line-ok m line e =
      let (s, p, q) = >>=-eq-ok (to_string m) (λ s. ok (s ++ 10 ∷ [])) e in
      (s, ok-injective (sym q), one_line m s p, from_str-to_string m s p)

  -- What is encoded as a line decodes to the message.
  pub decode-encode :
      (m : M) (line : Text) → encode_line to_string m ≡ ok line → decode_line from_str line ≡ ok m
  unfolding decode_line
  decode-encode m line e =
      let (s, l, clean, back) = encode_line-ok m line e in rw (l, trim-append s clean) back

  decode_bare : (s : Text) → any is_line_end s ≡ false → decode_line from_str s ≡ from_str s
  unfolding decode_line
  decode_bare s clean = rw (trim_clean s clean)

  -- A stream of encoded messages splits into exactly one line for each message, and each line
  -- decodes to its message.
  pub decode_stream :
      (ms : List M) (out : Text)
      → encode_all to_string ms ≡ ok out
      → map (decode_line from_str) (lines_from [] out) ≡ map ok ms
  unfolding encode_all lines_from
  decode_stream [] out e = rw (← ok-injective e) refl
  decode_stream (m ∷ ms) out e =
      let (line, p, q) = >>=-eq-ok (encode_line to_string m) _ e in
      let (rest, p', q') = >>=-eq-ok (encode_all to_string ms) _ q in
      let (s, l, clean, back) = encode_line-ok m line p in
      let whole : out ≡ s ++ (10 ∷ rest) =
        sym (ok-injective q') ∙ ap (λ x. x ++ rest) l ∙ append_assoc s (10 ∷ []) rest in
      rw (whole, lines_from-append [] s rest clean)
        (cc (decode_bare s clean, back, decode_stream ms rest p'))
