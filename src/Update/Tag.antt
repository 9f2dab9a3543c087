-- ===== src/Update/Tag.antt =====
-- internal/update/update.go: the tags of releases are read as they are meant.
use mathlib.Core.List.{append-nil}
use void_bridge.Base.{
  ◌==◌, ◌&&◌, if◌then◌else◌, ℕ, suc, ◌+◌, ◌-◌, ◌*◌, ◌^◌, ◌≡◌, ◌≢◌, ◌<◌, ◌/◌, ◌%◌, ◌≤◌, refl, ◌∙◌,
  false, [], ◌∷◌, ◌++◌, some, Str, str_eq, nat_eq, arith, ap, inl, pos, All, All-append, Lacks,
  decimal, decimal64, Lacks-decimal, decimal-digits, value_from, value-decimal,
}
use void_bridge.Protocol.Code.{is_space}
use void_bridge.Protocol.Code.Trim.{NoneOf, trim_space-NoneOf}
use void_bridge.Protocol.Message.{str_lt}
use void_bridge.Update.Version.{
  newer, newer-outranks, parse, trim_v, cut_at, split, digits_from, digits, atoi, part,
}

abbrev dot : ℕ
dot = b'.'

abbrev dash : ℕ
dash = b'-'

abbrev pub suffix : Str → Str
suffix [] = []
suffix (c ∷ s) = dash ∷ c ∷ s

-- The three numbers, divided by dots.
abbrev pub numbers : ℕ → ℕ → ℕ → Str
numbers a b c = decimal64 a ++ dot ∷ (decimal64 b ++ dot ∷ decimal64 c)

cut_at-Lacks : (sep : ℕ) (s t : Str) → Lacks sep s → cut_at sep (s ++ sep ∷ t) ≡ (s, t)
unfolding cut_at
cut_at-Lacks sep [] t h = ground arith
cut_at-Lacks sep (c ∷ s) t h = ground (arith, cut_at-Lacks sep s t h.1)

cut_at-none : (sep : ℕ) (s : Str) → Lacks sep s → cut_at sep s ≡ (s, [])
unfolding cut_at
cut_at-none sep [] h = refl
cut_at-none sep (c ∷ s) h = ground (arith, cut_at-none sep s h.1)

split-Lacks : (sep : ℕ) (s t : Str) → Lacks sep s → split sep (s ++ sep ∷ t) ≡ s ∷ split sep t
unfolding split
split-Lacks sep [] t h = ground arith
split-Lacks sep (c ∷ s) t h = ground (arith, split-Lacks sep s t h.1)

split-none : (sep : ℕ) (s : Str) → Lacks sep s → split sep s ≡ s ∷ []
unfolding split
split-none sep [] h = refl
split-none sep (c ∷ s) h = ground (arith, split-none sep s h.1)

digits_from-All :
    (acc : ℕ) (s : Str)
    → All (λ c. (48 ≤ c) × (c < 58)) s
    → digits_from acc s ≡ some (value_from acc s)
unfolding digits_from value_from
digits_from-All acc [] h = refl
digits_from-All acc (c ∷ s) h = ground (arith, digits_from-All (10 * acc + (c - 48)) s h.1)

atoi-digits :
    (s : Str) (n : ℕ)
    → All (λ c. (48 ≤ c) × (c < 58)) s
    → digits s ≡ some n
    → n < 2 ^ 63
    → atoi s ≡ some (pos n)
unfolding atoi digits
atoi-digits [] n h d le = cc
atoi-digits (c ∷ s) n h d le = ground arith

append_one-ne-nil : (s : Str) (c : ℕ) → s ++ c ∷ [] ≢ []
append_one-ne-nil [] c e = cc
append_one-ne-nil (d ∷ s) c e = cc

decimal-ne-nil : (fuel n : ℕ) → decimal (suc fuel) n ≢ []
unfolding decimal
decimal-ne-nil fuel n e = ground (arith, append_one-ne-nil (decimal fuel (n / 10)) (48 + n % 10))

digits-ne-nil : (s : Str) → s ≢ [] → digits s ≡ digits_from 0 s
unfolding digits
digits-ne-nil [] h = absurd (h refl)
digits-ne-nil (c ∷ s) h = refl

decimal-cons : (n : ℕ) → digits (decimal64 n) ≡ digits_from 0 (decimal64 n)
decimal-cons n = digits-ne-nil (decimal64 n) (decimal-ne-nil 19 n)

part-decimal64 : (n : ℕ) → n < 2 ^ 63 → part (decimal64 n) ≡ some n
part-decimal64 n h =
    let d =
      decimal-cons n
      ∙ digits_from-All 0 (decimal64 n) (decimal-digits 20 n)
      ∙ ap some (value-decimal 20 n (omega arith)) in
    rw (atoi-digits (decimal64 n) n (decimal-digits 20 n) d h) refl

numbers-Lacks : (a b c : ℕ) → Lacks dash (numbers a b c)
numbers-Lacks a b c =
    let digit = λ (n : ℕ). Lacks-decimal dash 20 n (inl (omega arith)) in
    All-append (λ d. d ≢ dash) (decimal64 a) (dot ∷ (decimal64 b ++ dot ∷ decimal64 c)) (digit a)
      (
        λ e. absurd (omega arith),
        All-append (λ d. d ≢ dash) (decimal64 b) (dot ∷ decimal64 c) (digit b)
            (λ e. absurd (omega arith), digit c),
      )

split-numbers :
    (a b c : ℕ) → split dot (numbers a b c) ≡ decimal64 a ∷ decimal64 b ∷ decimal64 c ∷ []
split-numbers a b c =
    let lacks = λ (n : ℕ). Lacks-decimal dot 20 n (inl (omega arith)) in
    split-Lacks dot (decimal64 a) (decimal64 b ++ dot ∷ decimal64 c) (lacks a)
    ∙ ap (◌∷◌ (decimal64 a)) (
        split-Lacks dot (decimal64 b) (decimal64 c) (lacks b)
        ∙ ap (◌∷◌ (decimal64 b)) (split-none dot (decimal64 c) (lacks c)))

cut_at-numbers :
    (a b c : ℕ) (pre : Str) → cut_at dash (numbers a b c ++ suffix pre) ≡ (numbers a b c, pre)
cut_at-numbers a b c [] =
    ap (cut_at dash) (append-nil (numbers a b c))
    ∙ cut_at-none dash (numbers a b c) (numbers-Lacks a b c)
cut_at-numbers a b c (d ∷ pre) = cut_at-Lacks dash (numbers a b c) (d ∷ pre) (numbers-Lacks a b c)

digit-not-space : (s : Str) → All (λ c. (48 ≤ c) × (c < 58)) s → NoneOf is_space s
unfolding is_space
digit-not-space [] a = tt
digit-not-space (c ∷ s) a = (ground arith, digit-not-space s a.1)

suffix-NoneOf : (pre : Str) → NoneOf is_space pre → NoneOf is_space (suffix pre)
unfolding is_space
suffix-NoneOf [] a = tt
suffix-NoneOf (c ∷ pre) a = (refl, a)

tag-NoneOf :
    (a b c : ℕ) (pre : Str)
    → NoneOf is_space pre
    → NoneOf is_space (b'v' ∷ (numbers a b c ++ suffix pre))
unfolding is_space
tag-NoneOf a b c pre h =
    let plain = λ (n : ℕ). digit-not-space (decimal64 n) (decimal-digits 20 n) in
    let ok = λ (d : ℕ). is_space d ≡ false in
    (
      refl,
      All-append ok (numbers a b c) (suffix pre)
          (All-append ok (decimal64 a) (dot ∷ (decimal64 b ++ dot ∷ decimal64 c)) (plain a)
            (refl, All-append ok (decimal64 b) (dot ∷ decimal64 c) (plain b) (refl, plain c)))
          (suffix-NoneOf pre h),
    )

-- The tag of a release, `v1.2.3` or `v1.2.3-beta.1`, is read as its three numbers and what follows
-- the dash, if the numbers are below 2 ^ 63 and no space stands in what follows.
pub parse-tag :
    (a b c : ℕ) (pre : Str)
    → a < 2 ^ 63
    → b < 2 ^ 63
    → c < 2 ^ 63
    → NoneOf is_space pre
    → parse (b'v' ∷ (numbers a b c ++ suffix pre))
      ≡ some (record { major = a; minor = b; patch = c; pre = pre })
unfolding parse trim_v
parse-tag a b c pre ha hb hc h =
    rw
      (
        trim_space-NoneOf (b'v' ∷ (numbers a b c ++ suffix pre)) (tag-NoneOf a b c pre h),
        cut_at-numbers a b c pre,
        split-numbers a b c,
        part-decimal64 a ha,
        part-decimal64 b hb,
        part-decimal64 c hc,
      )
      refl

-- Of the tags `v1.2.3` or `v1.2.3-beta.1` of two releases, the numbers below 2 ^ 63 and no space in
-- what follows the dash, `Newer` says yes exactly if the latest is no pre-release and is greater by
-- its first, second and third number, in this order, where a release comes after every pre-release
-- of the same numbers.
pub newer-tag :
    (a b c a' b' c' : ℕ) (pre pre' : Str)
    → a < 2 ^ 63
    → b < 2 ^ 63
    → c < 2 ^ 63
    → a' < 2 ^ 63
    → b' < 2 ^ 63
    → c' < 2 ^ 63
    → NoneOf is_space pre
    → NoneOf is_space pre'
    → newer (b'v' ∷ (numbers a b c ++ suffix pre)) (b'v' ∷ (numbers a' b' c' ++ suffix pre')) ≡ (
        (pre == [])
        && str_lt
            (a' ∷ b' ∷ c' ∷ (if pre' == [] then 1 else 0) ∷ [])
            (a ∷ b ∷ c ∷ (if pre == [] then 1 else 0) ∷ []))
newer-tag a b c a' b' c' pre pre' ha hb hc ha' hb' hc' h h' =
    let latest = b'v' ∷ (numbers a b c ++ suffix pre) in
    let current = b'v' ∷ (numbers a' b' c' ++ suffix pre') in
    newer-outranks latest current
    ∙ rw (parse-tag a b c pre ha hb hc h, parse-tag a' b' c' pre' ha' hb' hc' h') refl
