-- ===== src/Host/Backoff.antt =====
-- crates/mai-core/src/host.rs: the reconnect delays, 1 s doubling to 60 s.
use native.Mathlib.Decide.{dec_le}
use native.Mathlib.Nat.{pow-suc}
use multi_ai.Base.{ℕ, zero, suc, ◌*◌, ◌^◌, ◌≤◌, ◌≡◌, ◌∙◌, ap, arith, min}

pub record Backoff : Type 0 where
  pub next : ℕ

-- `Backoff::FIRST` and `Backoff::MAX`.
abbrev pub first_delay : ℕ
first_delay = 1_000

abbrev pub max_delay : ℕ
max_delay = 60_000

-- `Backoff::default` and `Backoff::reset`.
abbrev pub fresh : Backoff
fresh = record { next = first_delay }

-- `Backoff::next_delay`: the backoff afterwards, and the delay to wait now.
unfoldable pub next_delay : Backoff → Backoff × ℕ
next_delay b = (record { next = min (b.next * 2) max_delay }, b.next)

-- The delay after `n` others.
pub delay_after : ℕ → Backoff → ℕ
delay_after zero b = (next_delay b).1
delay_after (suc n) b = delay_after n (next_delay b).0

pub record InRange (b : Backoff) : Type 0 where
  pub at_least : first_delay ≤ b.next
  pub at_most : b.next ≤ max_delay

pub next_delay-InRange : (b : Backoff) → InRange b → InRange (next_delay b).0
unfolding next_delay
next_delay-InRange b v = omega arith

two_pow_pos : (n : ℕ) → 1 ≤ 2 ^ n
two_pow_pos zero = omega arith
two_pow_pos (suc n) = omega (arith, two_pow_pos n, pow-suc 2 n)

double_cap :
    (d p : ℕ) → 1 ≤ p → min (min (d * 2) max_delay * p) max_delay ≡ min (d * (2 * p)) max_delay
double_cap d p h = elim (dec_le (d * 2) max_delay) [
  | yes small ↦ let e : min (d * 2) max_delay ≡ d * 2 = omega arith in rw e (omega arith)
  | no large ↦
      let e : min (d * 2) max_delay ≡ max_delay = omega arith in
      let q : max_delay * p ≤ d * 2 * p = grind arith in rw e (omega arith)
]

delay_closed :
    (n d : ℕ) → d ≤ max_delay → delay_after n (record { next = d }) ≡ min (d * 2 ^ n) max_delay
unfolding delay_after next_delay
delay_closed zero d h = omega arith
delay_closed (suc n) d h =
    let twice : 2 * 2 ^ n ≡ 2 ^ suc n = omega (arith, pow-suc 2 n) in
    delay_closed n (min (d * 2) max_delay) (omega arith)
    ∙ double_cap d (2 ^ n) (two_pow_pos n)
    ∙ ap (λ x. min (d * x) max_delay) twice

-- From a fresh backoff the delays are 1 s, 2 s, 4 s and so on, and 60 s from the seventh on.
pub fresh_delays : (n : ℕ) → delay_after n fresh ≡ min (1_000 * 2 ^ n) 60_000
fresh_delays n = delay_closed n first_delay (omega arith)
