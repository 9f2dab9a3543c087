-- ===== src/Update/Version.antt =====
-- internal/update/update.go: versions. `strings.TrimSpace` is taken on bytes, so that spaces
-- outside ASCII stay and make a version unreadable.
use void_bridge.Base.{
  ℕ, ◌+◌, ◌-◌, ◌*◌, ◌^◌, ◌≡◌, refl, sym, ◌∙◌, Bool, true, false, not, ◌&&◌, List, [], ◌∷◌, Option,
  none, some, Str, str_eq, nat_eq, ◌==◌, ltb, leb, if◌then◌else◌, arith, ℤ, pos, negsuc,
}
use void_bridge.Protocol.Code.{trim_space}
use void_bridge.Protocol.Message.{str_lt}
use void_bridge.Protocol.Order.{str_lt_trans}

pub record Version : Type 0 where
  pub major : ℕ
  pub minor : ℕ
  pub patch : ℕ
  pub pre : Str

unfoldable pub trim_v : Str → Str
trim_v [] = []
trim_v (c ∷ s) = if c == b'v' then s else c ∷ s

-- `strings.Cut(s, sep)`, where what is missing is empty.
unfoldable pub cut_at : ℕ → Str → Str × Str
cut_at sep [] = ([], [])
cut_at sep (c ∷ s) = let rest = cut_at sep s in if c == sep then ([], s) else (c ∷ rest.0, rest.1)

abbrev pub extend : ℕ → List Str → List Str
extend c [] = (c ∷ []) ∷ []
extend c (p ∷ ps) = (c ∷ p) ∷ ps

-- `strings.Split(s, sep)`
unfoldable pub split : ℕ → Str → List Str
split sep [] = [] ∷ []
split sep (c ∷ s) = let rest = split sep s in if c == sep then [] ∷ rest else extend c rest

unfoldable pub digits_from : ℕ → Str → Option ℕ
digits_from acc [] = some acc
digits_from acc (c ∷ s) = if leb 48 c && leb c 57 then digits_from (10 * acc + (c - 48)) s else none

unfoldable pub digits : Str → Option ℕ
unfolding digits_from
digits [] = none
digits (c ∷ s) = digits_from 0 (c ∷ s)

abbrev pub negated : ℕ → ℤ
negated n = if n == 0 then pos 0 else negsuc (n - 1)

abbrev pub below_zero : Str → Option ℤ
below_zero s = elim (digits s) [
  | none ↦ none
  | some n ↦ if ltb (2 ^ 63) n then none else some (negated n)
]

abbrev pub above_zero : Str → Option ℤ
above_zero s = elim (digits s) [
  | none ↦ none
  | some n ↦ if ltb n (2 ^ 63) then some (pos n) else none
]

-- `strconv.Atoi`: a sign is read, and a number that an int does not hold is an error.
unfoldable pub atoi : Str → Option ℤ
unfolding digits
atoi [] = none
atoi (c ∷ s) =
    if c == b'-' then below_zero s else if c == b'+' then above_zero s else above_zero (c ∷ s)

abbrev pub not_negative : Option ℤ → Option ℕ
not_negative none = none
not_negative (some (pos n)) = some n
not_negative (some (negsuc n)) = none

abbrev pub part : Str → Option ℕ
part p = not_negative (atoi p)

abbrev pub version_of : Str → Option ℕ → Option ℕ → Option ℕ → Option Version
version_of pre (some a) (some b) (some c) =
    some (record { major = a; minor = b; patch = c; pre = pre })
version_of pre _ _ _ = none

abbrev pub of_parts : Str → List Str → Option Version
of_parts pre (a ∷ b ∷ c ∷ []) = version_of pre (part a) (part b) (part c)
of_parts pre _ = none

-- `parse`
unfoldable pub parse : Str → Option Version
unfolding trim_v cut_at split atoi
parse v = let cut = cut_at b'-' (trim_v (trim_space v)) in of_parts cut.1 (split b'.' cut.0)

unfoldable pub supported : Str → Bool
unfolding parse
supported current = elim (parse current) [ none ↦ false | some v ↦ true ]

-- The loop of `Newer` over the three numbers, and what follows it.
unfoldable pub newer_version : Version → Version → Bool
newer_version l c =
    if not (l.pre == [])
    then false
    else if not (l.major == c.major)
    then ltb c.major l.major
    else if not (l.minor == c.minor)
    then ltb c.minor l.minor
    else if not (l.patch == c.patch)
    then ltb c.patch l.patch
    else not (c.pre == [])

unfoldable pub newer_of : Option Version → Option Version → Bool
unfolding newer_version
newer_of (some l) (some c) = newer_version l c
newer_of (some l) none = false
newer_of none c = false

unfoldable pub newer : Str → Str → Bool
unfolding newer_of parse
newer latest current = newer_of (parse latest) (parse current)

-- The numbers in the order of their weight; a release comes after its pre-releases.
abbrev pub rank : Version → List ℕ
rank v = v.major ∷ v.minor ∷ v.patch ∷ (if v.pre == [] then 1 else 0) ∷ []

abbrev pub outranks : Option Version → Option Version → Bool
outranks (some l) (some c) = (l.pre == []) && str_lt (rank c) (rank l)
outranks (some l) none = false
outranks none c = false

newer_of-outranks : (l c : Option Version) → newer_of l c ≡ outranks l c
unfolding newer_of str_lt
newer_of-outranks (some l) (some c) = ground arith
newer_of-outranks (some l) none = refl
newer_of-outranks none c = refl

-- `Newer` is the order of what `parse` gives.
pub newer-outranks :
    (latest current : Str) → newer latest current ≡ outranks (parse latest) (parse current)
unfolding newer
newer-outranks latest current = newer_of-outranks (parse latest) (parse current)

outranks_trans :
    (a b c : Option Version) → outranks c b ≡ true → outranks b a ≡ true → outranks c a ≡ true
outranks_trans (some a) (some b) (some c) h g =
    ground (arith, str_lt_trans (rank a) (rank b) (rank c))
outranks_trans none (some b) (some c) h g = cc
outranks_trans a none (some c) h g = cc
outranks_trans a b none h g = cc

-- What is newer than a newer version is newer.
pub newer_trans : (a b c : Str) → newer b a ≡ true → newer c b ≡ true → newer c a ≡ true
newer_trans a b c h g =
    newer-outranks c a
    ∙ outranks_trans (parse a) (parse b) (parse c) (sym (newer-outranks c b) ∙ g)
        (sym (newer-outranks b a) ∙ h)
