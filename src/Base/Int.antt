-- ===== src/Base/Int.antt =====
-- Go's int64: integers, with the tests that the program makes and the wrap of `+ 1`.
use Prim.Native.Nat.{ℕ, zero, suc, ◌+◌, ◌-◌, ◌^◌, ◌%◌}
use mathlib.Core.Path.{◌≡◌}
use mathlib.Core.Logic.{◌↔◌, ◌≢◌}
use mathlib.Core.Bool.{Bool, true, false}
use native.Mathlib.Omega.{arith}
use void_bridge.Base.Tests.{Eq, ltb, nat_beq, if◌then◌else◌}

-- `negsuc n` is -(n + 1).
pub data ℤ : Type 0 where
  pos : ℕ → ℤ
  negsuc : ℕ → ℤ

unfoldable pub int_beq : ℤ → ℤ → Bool
int_beq (pos a) (pos b) = nat_beq a b
int_beq (negsuc a) (negsuc b) = nat_beq a b
int_beq (pos a) (negsuc b) = false
int_beq (negsuc a) (pos b) = false

pub int_beq_iff : (a b : ℤ) → (int_beq a b ≡ true) ↔ (a ≡ b)
unfolding int_beq
int_beq_iff (pos a) (pos b) = ground arith
int_beq_iff (negsuc a) (negsuc b) = ground arith
int_beq_iff (pos a) (negsuc b) = ground arith
int_beq_iff (negsuc a) (pos b) = ground arith

instance abbrev pub int_eq : Eq ℤ
int_eq = record { equal = int_beq; equal_iff = int_beq_iff }

-- `a < b`
unfoldable pub int_lt : ℤ → ℤ → Bool
int_lt (pos a) (pos b) = ltb a b
int_lt (pos a) (negsuc b) = false
int_lt (negsuc a) (pos b) = true
int_lt (negsuc a) (negsuc b) = ltb b a

abbrev pub int_le : ℤ → ℤ → Bool
int_le a b = if int_lt b a then false else true

-- `a + 1`, which wraps from the largest int64 to the smallest.
unfoldable pub add_one64 : ℤ → ℤ
add_one64 (pos n) = if nat_beq n (2 ^ 63 - 1) then negsuc n else pos (n + 1)
add_one64 (negsuc zero) = pos 0
add_one64 (negsuc (suc n)) = negsuc n

-- An int64 as its bit pattern, below 2 ^ 64, and the number that it stands for.
abbrev pub signed64 : ℕ → ℤ
signed64 w = if ltb w (2 ^ 63) then pos w else negsuc (2 ^ 64 - w - 1)

abbrev pub bits64 : ℤ → ℕ
bits64 (pos n) = n % 2 ^ 64
bits64 (negsuc n) = 2 ^ 64 - 1 - n % 2 ^ 64

abbrev pub plus64 : ℕ → ℕ → ℕ
plus64 a b = (a + b) % 2 ^ 64

pub int_lt_irrefl : (a : ℤ) → int_lt a a ≡ false
unfolding int_lt
int_lt_irrefl (pos a) = ground arith
int_lt_irrefl (negsuc a) = ground arith

pub int_lt_trans : (a b c : ℤ) → int_lt a b ≡ true → int_lt b c ≡ true → int_lt a c ≡ true
unfolding int_lt
int_lt_trans (pos a) (pos b) (pos c) = ground arith
int_lt_trans (negsuc a) (negsuc b) (negsuc c) = ground arith
int_lt_trans (pos a) (negsuc b) c = ground arith
int_lt_trans (pos a) (pos b) (negsuc c) = ground arith
int_lt_trans (negsuc a) (pos b) (pos c) = ground arith
int_lt_trans (negsuc a) (pos b) (negsuc c) = ground arith
int_lt_trans (negsuc a) (negsuc b) (pos c) = ground arith

pub int_lt_connected : (a b : ℤ) → int_lt a b ≡ false → int_lt b a ≡ false → a ≡ b
unfolding int_lt
int_lt_connected (pos a) (pos b) = ground arith
int_lt_connected (negsuc a) (negsuc b) = ground arith
int_lt_connected (pos a) (negsuc b) = ground arith
int_lt_connected (negsuc a) (pos b) = ground arith

-- Below the largest int64, `+ 1` gives a larger number.
pub int_lt-add_one64 : (a : ℤ) → a ≢ pos (2 ^ 63 - 1) → int_lt a (add_one64 a) ≡ true
unfolding int_lt add_one64
int_lt-add_one64 (pos n) h = ground arith
int_lt-add_one64 (negsuc zero) h = ground arith
int_lt-add_one64 (negsuc (suc n)) h = ground arith
