-- ===== src/Outbox/Backoff.antt =====
-- core/pkg/outbox/consumer.go, backoffFor without its jitter: delays are `time.Duration`, signed
-- 64-bit numbers of nanoseconds.
use watchkeepers.Prelude.{
  ℕ, zero, suc, ◌*◌, ◌^◌, ◌%◌, ◌<◌, ◌≤◌, ◌≡◌, Bool, ◌||◌, leb, ltb, if◌then◌else◌, arith, true,
  false,
}
use native.Mathlib.Nat.{pow-suc}
use native.Mathlib.Decide.{dec_lt}
use Prim.Native.Nat.{min}

-- A sum of two durations as the bit pattern that the machine keeps.
abbrev wrap64 : ℕ → ℕ
wrap64 n = n % 2 ^ 64

-- The sign bit.
abbrev is_negative : ℕ → Bool
is_negative n = leb (2 ^ 63) n

should_stop : ℕ → ℕ → Bool
should_stop base max_delay =
    let next = wrap64 (base * 2) in is_negative next || ltb next base || ltb max_delay next

-- The loop: it doubles `base` while that neither overflows nor passes the cap.
double : ℕ → ℕ → ℕ → ℕ
double zero base max_delay = base
double (suc n) base max_delay =
    let next = wrap64 (base * 2) in
    let rest = double n next max_delay in if should_stop base max_delay then max_delay else rest

-- The cap after the loop.
clamp : ℕ → ℕ → ℕ
clamp base max_delay = if ltb max_delay base then max_delay else base

unfoldable pub backoff_base : ℕ → ℕ → ℕ → ℕ
unfolding double should_stop clamp
backoff_base attempt initial max_delay = clamp (double attempt initial max_delay) max_delay

module _ (base max_delay : ℕ) (base_fits : base < 2 ^ 63) (max_fits : max_delay < 2 ^ 63) where
  stops : max_delay < base * 2 → should_stop base max_delay ≡ true
  unfolding should_stop
  stops h = ground arith

  goes_on : base * 2 ≤ max_delay → should_stop base max_delay ≡ false
  unfolding should_stop
  goes_on h = ground arith

  no_wrap : base * 2 ≤ max_delay → wrap64 (base * 2) ≡ base * 2
  no_wrap h = omega arith

one-le-pow : (n : ℕ) → 1 ≤ 2 ^ n
one-le-pow zero = omega arith
one-le-pow (suc n) = rw pow-suc (omega (arith, one-le-pow n))

clamp_max : (m : ℕ) → clamp m m ≡ m
unfolding clamp
clamp_max m = ground arith

double_pow : (base n : ℕ) → base * 2 ^ suc n ≡ base * 2 * 2 ^ n
double_pow base n = rw pow-suc (omega arith)

min_of_passed : (base2 p m : ℕ) → m < base2 → 1 ≤ p → min (base2 * p) m ≡ m
min_of_passed base2 p m h q = grind arith

double_stop :
    (n base max_delay : ℕ)
    → should_stop base max_delay ≡ true
    → double (suc n) base max_delay ≡ max_delay
unfolding double
double_stop n base max_delay e = rw e

double_go :
    (n base max_delay : ℕ)
    → should_stop base max_delay ≡ false
    → wrap64 (base * 2) ≡ base * 2
    → double (suc n) base max_delay ≡ double n (base * 2) max_delay
unfolding double
double_go n base max_delay e w = rw (e, w)

double_exact :
    (n base max_delay : ℕ)
    → base < 2 ^ 63
    → max_delay < 2 ^ 63
    → clamp (double n base max_delay) max_delay ≡ min (base * 2 ^ n) max_delay
double_exact zero base max_delay hb hm = unfold double clamp in ground arith
double_exact (suc n) base max_delay hb hm = elim (dec_lt max_delay (base * 2)) [
  | yes h ↦
      rw
        (
          double_pow base n,
          min_of_passed (base * 2) (2 ^ n) max_delay h (one-le-pow n),
          double_stop n base max_delay (stops base max_delay hb hm h),
        )
        (clamp_max max_delay)
  | no h ↦
      let small : base * 2 ≤ max_delay = omega arith in
      rw
        (
          double_pow base n,
          double_go n base max_delay (goes_on base max_delay hb hm small)
              (no_wrap base max_delay hb hm small),
        )
        (double_exact n (base * 2) max_delay (omega arith) hm)
]

-- For delays in range, the un-jittered delay of retry `n` is exactly `initial * 2 ^ n` capped at the
-- maximum: the doubling never overflows, however large `n` is.
pub backoff_exact :
    (n initial max_delay : ℕ)
    → initial < 2 ^ 63
    → max_delay < 2 ^ 63
    → backoff_base n initial max_delay ≡ min (initial * 2 ^ n) max_delay
unfolding backoff_base
backoff_exact n initial max_delay hi hm = double_exact n initial max_delay hi hm
