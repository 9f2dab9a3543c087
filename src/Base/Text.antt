-- ===== src/Base/Text.antt =====
-- Texts: literals as bytes, decimal numbers, and fields divided by a separator.
use Prim.Native.Char.{code}
use Prim.Native.String.{String}
use Prim.Native.Nat.{ℕ, zero, suc, ◌+◌, ◌-◌, ◌*◌, ◌/◌, ◌%◌, ◌^◌, ◌≤◌, ◌<◌}
use mathlib.Core.Path.{◌≡◌, refl, ap, ◌∙◌, sym}
use mathlib.Core.Logic.{◌≢◌, ◌⊎◌, inr}
use mathlib.Core.List.{[], ◌∷◌, ◌++◌}
use native.Mathlib.Nat.{pow-suc}
use native.Mathlib.Omega.{arith}
use void_bridge.Base.Tests.{Str, ltb, if◌then◌else◌}
use void_bridge.Base.Lists.{All, All-append}
use void_bridge.Base.Int.{ℤ, pos, negsuc}

-- The bytes of an ASCII literal.
abbrev pub codes : String → Str
codes String.[] = []
codes (String.◌∷◌ c s) = code c ∷ codes s

-- The decimal digits of a number below 10 ^ fuel.
unfoldable pub decimal : ℕ → ℕ → Str
decimal zero n = []
decimal (suc fuel) n =
    let rest = decimal fuel (n / 10) in
    if ltb n 10 then (48 + n) ∷ [] else rest ++ (48 + n % 10) ∷ []

-- Twenty digits hold every 64-bit number.
abbrev pub decimal64 : ℕ → Str
decimal64 n = decimal 20 n

-- `strconv.FormatInt(x, 10)`
unfoldable pub format_int : ℤ → Str
format_int (pos n) = decimal64 n
format_int (negsuc n) = b'-' ∷ decimal64 (suc n)

unfoldable pub value_from : ℕ → Str → ℕ
value_from acc [] = acc
value_from acc (c ∷ s) = value_from (10 * acc + (c - 48)) s

value_from-append_one :
    (acc c : ℕ) (s : Str) → value_from acc (s ++ c ∷ []) ≡ 10 * value_from acc s + (c - 48)
unfolding value_from
value_from-append_one acc c [] = refl
value_from-append_one acc c (d ∷ s) = value_from-append_one (10 * acc + (d - 48)) c s

pub value-decimal : (fuel n : ℕ) → n < 10 ^ fuel → value_from 0 (decimal fuel n) ≡ n
unfolding decimal value_from
value-decimal zero n h = omega arith
value-decimal (suc fuel) n h = ground (
  arith,
  pow-suc 10 fuel,
  value-decimal fuel (n / 10),
  value_from-append_one 0 (48 + n % 10) (decimal fuel (n / 10)),
)

pub decimal_injective :
    (fuel n m : ℕ) → n < 10 ^ fuel → m < 10 ^ fuel → decimal fuel n ≡ decimal fuel m → n ≡ m
decimal_injective fuel n m hn hm e =
    sym (value-decimal fuel n hn) ∙ ap (value_from 0) e ∙ value-decimal fuel m hm

-- Every byte of a decimal number is a digit.
pub decimal-digits : (fuel n : ℕ) → All (λ c. (48 ≤ c) × (c < 58)) (decimal fuel n)
unfolding decimal
decimal-digits zero n = tt
decimal-digits (suc fuel) n = ground (
  arith,
  decimal-digits fuel (n / 10),
  All-append (λ c. (48 ≤ c) × (c < 58)) (decimal fuel (n / 10)) ((48 + n % 10) ∷ []),
)

-- No byte of the text is `c`.
abbrev pub Lacks : ℕ → Str → Type 0
Lacks c s = All (λ d. d ≢ c) s

pub Lacks-decimal : (c fuel n : ℕ) → (c < 48) ⊎ (57 < c) → Lacks c (decimal fuel n)
Lacks-decimal c fuel n h = go (decimal fuel n) (decimal-digits fuel n)
  where
    go : (s : Str) → All (λ d. (48 ≤ d) × (d < 58)) s → Lacks c s
    go [] a = tt
    go (d ∷ s) a = (ground arith, go s a.1)

-- A text without the separator before it is read back from what it is joined to.
pub split_at_separator :
    (c : ℕ) (a b x y : Str) → Lacks c a → Lacks c b → a ++ c ∷ x ≡ b ++ c ∷ y → (a ≡ b) × (x ≡ y)
split_at_separator c [] [] x y ha hb e = ground arith
split_at_separator c [] (d ∷ b) x y ha hb e = ground arith
split_at_separator c (d ∷ a) [] x y ha hb e = ground arith
split_at_separator c (d ∷ a) (d' ∷ b) x y ha hb e =
    ground (arith, split_at_separator c a b x y ha.1 hb.1)

-- Numbers that an int64 holds.
abbrev pub IsInt64 : ℤ → Type 0
IsInt64 (pos n) = n < 2 ^ 63
IsInt64 (negsuc n) = n < 2 ^ 63

pub Lacks-format_int : (c : ℕ) (x : ℤ) → 57 < c → Lacks c (format_int x)
unfolding format_int
Lacks-format_int c (pos n) h = Lacks-decimal c 20 n (inr h)
Lacks-format_int c (negsuc n) h = (omega arith, Lacks-decimal c 20 (suc n) (inr h))

decimal-head : (fuel n : ℕ) (s : Str) → decimal fuel n ≢ b'-' ∷ s
decimal-head fuel n s e = go (decimal fuel n) (decimal-digits fuel n) e
  where
    go : (t : Str) → All (λ d. (48 ≤ d) × (d < 58)) t → t ≡ b'-' ∷ s → ⊥
    go [] a p = cc
    go (d ∷ t) a p = ground arith

pub format_int_injective : (x y : ℤ) → IsInt64 x → IsInt64 y → format_int x ≡ format_int y → x ≡ y
unfolding format_int
format_int_injective (pos n) (pos m) hx hy e =
    ap pos (decimal_injective 20 n m (omega arith) (omega arith) e)
format_int_injective (pos n) (negsuc m) hx hy e = absurd (decimal-head 20 n _ e)
format_int_injective (negsuc n) (pos m) hx hy e = absurd (decimal-head 20 m _ (sym e))
format_int_injective (negsuc n) (negsuc m) hx hy e =
    ground (arith, decimal_injective 20 (suc n) (suc m) (omega arith) (omega arith))
