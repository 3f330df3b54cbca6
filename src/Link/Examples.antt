-- ===== src/Link/Examples.antt =====
-- crates/mai-core/src/link.rs: the theorems at concrete inputs.
use multi_ai.Base.{
  ℕ, ◌≡◌, refl, none, some, List, [], ◌∷◌, map, arith, Text, text, Result, ok, err, if◌then◌else◌,
  nat_beq, suc, zero, All,
}
use multi_ai.Protocol.{HelloInfo, ProbeMsg, hello, protocol_version}
use multi_ai.Protocol.Codec.{decode_line, trim_line_end}
use multi_ai.Link.{LinkError, Read, line, await_hello}
use multi_ai.Link.Handshake.{IsNoise, hello_decides}

abbrev info : HelloInfo
info = record {
  protocol_version = protocol_version;
  probe_version = text "0.1.0";
  os = text "linux";
  arch = text "x86_64";
  zellij_path = none;
  zellij_version = none;
}

-- A parser that knows one line.
abbrev parse : Text → Result ProbeMsg Text
parse [] = err (text "empty")
parse (c ∷ s) = if nat_beq c b'{' then ok (hello info) else err (text "no JSON")

abbrev show : ProbeMsg → Text
show m = text "message"

abbrev repeated : ℕ → Text → List Text
repeated zero l = []
repeated (suc n) l = l ∷ repeated n l

repeated-IsNoise : (n : ℕ) → All (IsNoise parse show) (repeated n (text "motd"))
unfolding decode_line trim_line_end
repeated-IsNoise zero = tt
repeated-IsNoise (suc n) = ((text "no JSON", refl), repeated-IsNoise n)

hello_decides_example :
    (x : Result HelloInfo LinkError × List Read) × (await_hello parse show
        (map line (repeated 51 (text "motd")))
      ≡ some x)
hello_decides_example =
    hello_decides parse show (map line (repeated 51 (text "motd"))) (omega arith)
