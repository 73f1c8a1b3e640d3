-- ===== src/Counter.antt =====
-- src/hive/counter.rs: `DualCounter<L>`, two counters in one 64-bit word. `L` is between 1 and 63:
-- the constants of the implementation do not compile for another. `& L_MAX` and `>> L_BITS` are
-- written as `% 2 ^ L_BITS` and `/ 2 ^ L_BITS`.
pub mod Arith
pub mod Laws
use procpool.Common.{
  ℕ, ◌+◌, ◌-◌, ◌*◌, ◌/◌, ◌%◌, ◌^◌, Option, none, some, ltb, leb, if◌then◌else◌, Result, ok, err,
  Exec, done, panicked, ◌>>=◌, pure, panic, unwrap_option,
}
use procpool.Atomic.{add, sub}

pub data CounterError : Type 0 where
  left_overflow right_overflow left_underflow right_underflow : CounterError

abbrev pub r_bits : ℕ → ℕ
r_bits l = 63 - l + 1

abbrev pub l_max : ℕ → ℕ
l_max l = 2 ^ l - 1

abbrev pub r_max : ℕ → ℕ
r_max l = 2 ^ r_bits l - 1

abbrev pub decompose : ℕ → ℕ → ℕ × ℕ
decompose l n = (n % 2 ^ l, n / 2 ^ l)

-- `u64::checked_add`, `checked_sub` and `checked_shl`
abbrev pub checked_add : ℕ → ℕ → Option ℕ
checked_add a b = if ltb (a + b) (2 ^ 64) then some (a + b) else none

abbrev pub checked_sub : ℕ → ℕ → Option ℕ
checked_sub a b = if leb b a then some (a - b) else none

abbrev pub checked_shl : ℕ → ℕ → Option ℕ
checked_shl n k = if ltb k 64 then some (n * 2 ^ k % 2 ^ 64) else none

unfoldable pub default : ℕ
default = 0

unfoldable pub get : ℕ → ℕ → ℕ × ℕ
get l word = decompose l word

-- The match on the sum that ends `increment_left`, and that of `transfer`.
abbrev pub check_sum {κ} :
    {A : Type κ} → Option ℕ → ℕ → A → CounterError → ℕ → Exec ℕ (Result A CounterError)
check_sum (some new_val) limit prev e = if leb new_val limit then pure (ok prev) else pure (err e)
check_sum none limit prev e = panic

unfoldable pub increment_left : ℕ → ℕ → ℕ → Exec ℕ (Result ℕ CounterError)
increment_left l n = if ltb (l_max l) n then pure (err left_overflow) else do
  word ← add 64 n
  let prev_val = word % 2 ^ l
  check_sum (checked_add prev_val n) (l_max l) prev_val left_overflow

unfoldable pub decrement_right : ℕ → ℕ → ℕ → Exec ℕ (Result ℕ CounterError)
decrement_right l n = if ltb (r_max l) n then pure (err right_underflow) else do
  n_shifted ← unwrap_option (checked_shl n l)
  word ← sub 64 n_shifted
  let prev_val = word / 2 ^ l
  if leb n prev_val then pure (ok prev_val) else pure (err right_underflow)

unfoldable pub transfer : ℕ → ℕ → ℕ → Exec ℕ (Result (ℕ × ℕ) CounterError)
transfer l n =
    if ltb (l_max l) n
    then pure (err left_underflow)
    else if ltb (r_max l) n
    then pure (err right_overflow)
    else do
      shifted ← unwrap_option (checked_shl n l)
      delta ← unwrap_option (checked_sub shifted n)
      word ← add 64 delta
      let (prev_left, prev_right) = decompose l word
      if ltb prev_left n
          then pure (err left_underflow)
          else check_sum (checked_add prev_right n) (r_max l) (prev_left, prev_right) right_overflow
