-- ===== src/Link.antt =====
-- crates/mai-core/src/link.rs: the app's side of the probe's JSON Lines stream. A read of the
-- stream is its outcome: `tokio::time::timeout` and the reader are not modelled, and a list of
-- outcomes stands for the stream. serde_json and `{:?}` are parameters.
pub mod Handshake
mod Examples
use multi_ai.Base.{
  ℕ, suc, ◌+◌, Bool, true, false, not, Option, none, some, List, [], ◌∷◌, ◌++◌, Text, text, decimal,
  ltb, nat_beq, length, take, Result, ok, err, if◌then◌else◌,
}
use multi_ai.Protocol.{HelloInfo, ProbeMsg, hello, error, AppMsg, protocol_version}
use multi_ai.Protocol.Codec.{encode_line, decode_line}

-- `MAX_NOISE_LINES`.
abbrev pub max_noise_lines : ℕ
max_noise_lines = 50

pub data LinkError : Type 0 where
  io : Text → LinkError
  closed silent : LinkError
  no_hello : Text → LinkError
  protocol : ℕ → ℕ → LinkError

-- `Display`.
pub display : LinkError → Text
display (io e) = text "probe stream: " ++ e
display closed = text "probe stream closed"
display silent = text "probe stopped responding"
display (no_hello m) = text "probe did not start: " ++ m
display (protocol probe app) =
    text "probe protocol " ++ (decimal probe ++ (text ", app protocol " ++ decimal app))

-- What `timeout(..., lines.next_line())` gives.
pub data Read : Type 0 where
  elapsed : Read
  failed : Text → Read
  ended : Read
  line : Text → Read

-- `ProbeLink::next_line`.
unfoldable pub next_line : Read → Result Text LinkError
next_line elapsed = err silent
next_line (failed e) = err (io e)
next_line ended = err closed
next_line (line l) = ok l

-- The part of a line that messages quote.
abbrev pub head_of : Text → Text
head_of l = take 120 l

-- `noise[0]` of the lines before the greeting, the last one pushed included.
abbrev first_of_noise : List Text → Text → Text
first_of_noise [] l = l
first_of_noise (n ∷ ns) l = n

module _ (from_str : Text → Result ProbeMsg Text) (debug : ProbeMsg → Text) where
  -- One round of the loop in `hello`: `none` goes on, with the line counted as noise.
  unfoldable pub greet : List Text → Text → Option (Result HelloInfo LinkError)
  greet noise l = elim (decode_line from_str l) [
    | ok (hello info) ↦ some (
        if not (nat_beq info.protocol_version protocol_version)
        then err (protocol info.protocol_version protocol_version)
        else ok info)
    | ok other ↦ some (err (no_hello (text "first message was not hello: " ++ debug other)))
    | err e ↦
        if ltb max_noise_lines (length noise + 1)
        then some (err (no_hello (text "unexpected output: " ++ head_of (first_of_noise noise l))))
        else none
  ]

  -- `ProbeLink::hello`: the result, and the reads that are left; `none` while the stream has given
  -- too little to decide.
  unfoldable pub hello_from :
      List Text → List Read → Option (Result HelloInfo LinkError × List Read)
  hello_from noise [] = none
  hello_from noise (r ∷ rs) = elim (next_line r) [
    | err e ↦ some (err e, rs)
    | ok l ↦ elim (greet noise l) [
      | some result ↦ some (result, rs)
      | none ↦ hello_from (noise ++ l ∷ []) rs
    ]
  ]

  unfoldable pub await_hello : List Read → Option (Result HelloInfo LinkError × List Read)
  await_hello reads = hello_from [] reads

  -- `ProbeLink::recv`.
  unfoldable pub recv : Read → Result ProbeMsg LinkError
  unfolding next_line
  recv r = elim (next_line r) [
    | err e ↦ err e
    | ok l ↦ elim (decode_line from_str l) [
      | ok m ↦ ok m
      | err e ↦ ok (error (text "bad_probe_line") (e ++ (text ": " ++ head_of l)))
    ]
  ]

-- `ProbeLink::send`: what is written, or why nothing is. `write` is the outcome of the write and
-- of the flush.
unfoldable pub send :
    (AppMsg → Result Text Text) → (Text → Result (Unit {0}) Text) → AppMsg → Result Text LinkError
send to_string write msg = elim (encode_line to_string msg) [
  | err e ↦ err (io e)
  | ok l ↦ elim (write l) [ ok _ ↦ ok l | err e ↦ err (io e) ]
]
