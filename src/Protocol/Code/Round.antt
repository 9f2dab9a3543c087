-- ===== src/Protocol/Code/Round.antt =====
-- Codes with dashes, as people read and type them, name the same group or invite.
use void_bridge.Base.{
  ℕ, ◌+◌, ◌-◌, ◌≤◌, ◌≡◌, refl, sym, ap, ◌∙◌, true, [], ◌∷◌, ◌++◌, Str, arith, All, length, take,
  drop, take-append-drop, nat_beq, Bool-cases, inl, inr, append_assoc, append-nil, suc, zero,
}
use void_bridge.Protocol.Code.{
  to_upper, is_base32, code_char, normalize_code, valid_code, format_code, format_invite, slice,
  dash,
}

abbrev pub IsBare : Str → Type 0
IsBare s = All (λ c. is_base32 c ≡ true) s

code_char-IsBare : (c : ℕ) → IsBare (code_char c)
unfolding code_char is_base32
code_char-IsBare c = ground arith

bare_char : (c : ℕ) → is_base32 c ≡ true → code_char (to_upper c) ≡ c ∷ []
unfolding code_char is_base32 to_upper
bare_char c h = ground arith

IsBare-append : (a b : Str) → IsBare a → IsBare b → IsBare (a ++ b)
IsBare-append [] b p q = q
IsBare-append (c ∷ a) b p q = (p.0, IsBare-append a b p.1 q)

normalize_code-IsBare : (s : Str) → IsBare (normalize_code s)
unfolding normalize_code
normalize_code-IsBare [] = tt
normalize_code-IsBare (c ∷ s) =
    IsBare-append (code_char (to_upper c)) (normalize_code s) (code_char-IsBare (to_upper c))
      (normalize_code-IsBare s)

pub normalize_code_bare : (s : Str) → IsBare s → normalize_code s ≡ s
unfolding normalize_code
normalize_code_bare [] p = refl
normalize_code_bare (c ∷ s) p = rw (bare_char c p.0, normalize_code_bare s p.1) refl

normalize_code-append : (a b : Str) → normalize_code (a ++ b) ≡ normalize_code a ++ normalize_code b
unfolding normalize_code
normalize_code-append [] b = refl
normalize_code-append (c ∷ a) b =
    ap (λ t. code_char (to_upper c) ++ t) (normalize_code-append a b)
    ∙ sym (append_assoc (code_char (to_upper c)) (normalize_code a) (normalize_code b))

normalize_code-dash : (s : Str) → normalize_code (dash ∷ s) ≡ normalize_code s
unfolding normalize_code code_char to_upper is_base32
normalize_code-dash s = refl

drop_nil : (k : ℕ) → drop {A = ℕ} k [] ≡ []
unfolding drop
drop_nil zero = refl
drop_nil (suc k) = refl

drop-drop : (i k : ℕ) (s : Str) → drop k (drop i s) ≡ drop (i + k) s
unfolding drop
drop-drop zero k s = ap (λ j. drop j s) (omega arith)
drop-drop (suc i) k [] = drop_nil k ∙ sym (drop_nil (suc i + k))
drop-drop (suc i) k (c ∷ s) = drop-drop i k s ∙ ap (λ j. drop j (c ∷ s)) (the_same i k)
  where
    the_same : (i k : ℕ) → suc (i + k) ≡ suc i + k
    the_same i k = omega arith

drop_all : (k : ℕ) (s : Str) → length s ≤ k → drop k s ≡ []
unfolding drop
drop_all zero [] h = refl
drop_all zero (c ∷ s) h = absurd (omega arith)
drop_all (suc k) [] h = refl
drop_all (suc k) (c ∷ s) h = drop_all k s (omega arith)

IsBare-take : (k : ℕ) (s : Str) → IsBare s → IsBare (take k s)
unfolding take
IsBare-take zero s p = tt
IsBare-take (suc k) [] p = tt
IsBare-take (suc k) (c ∷ s) p = (p.0, IsBare-take k s p.1)

IsBare-drop : (k : ℕ) (s : Str) → IsBare s → IsBare (drop k s)
unfolding drop
IsBare-drop zero s p = p
IsBare-drop (suc k) [] p = tt
IsBare-drop (suc k) (c ∷ s) p = IsBare-drop k s p.1

-- The parts of a code, with dashes between them, make the code again.
abbrev three : Str → Str
three n = slice 0 4 n ++ dash ∷ (slice 4 8 n ++ dash ∷ slice 8 12 n)

abbrev four : Str → Str
four n = slice 0 4 n ++ dash ∷ (slice 4 8 n ++ dash ∷ (slice 8 12 n ++ dash ∷ slice 12 16 n))

slice-IsBare : (a b : ℕ) (s : Str) → IsBare s → IsBare (slice a b s)
slice-IsBare a b s p = IsBare-take (b - a) (drop a s) (IsBare-drop a s p)

slice-drop : (a b : ℕ) (s : Str) → a ≤ b → slice a b s ++ drop b s ≡ drop a s
slice-drop a b s o =
    let sum : b ≡ a + (b - a) = omega arith in
    ap (λ t. slice a b s ++ t) (ap (λ j. drop j s) sum ∙ sym (drop-drop a (b - a) s))
    ∙ take-append-drop (b - a) (drop a s)

part :
    (a b : ℕ) (s rest : Str)
    → IsBare s
    → a ≤ b
    → normalize_code rest ≡ drop b s
    → normalize_code (slice a b s ++ dash ∷ rest) ≡ drop a s
part a b s rest p o e =
    normalize_code-append (slice a b s) (dash ∷ rest)
    ∙ (ap (λ t. t ++ normalize_code (dash ∷ rest))
          (normalize_code_bare (slice a b s) (slice-IsBare a b s p))
        ∙ (ap (λ t. slice a b s ++ t) (normalize_code-dash rest ∙ e) ∙ slice-drop a b s o))

last_part :
    (a b : ℕ) (s : Str) → IsBare s → length s ≤ b → a ≤ b → normalize_code (slice a b s) ≡ drop a s
last_part a b s p l o =
    normalize_code_bare (slice a b s) (slice-IsBare a b s p)
    ∙ (sym (append-nil (slice a b s))
        ∙ (ap (λ t. slice a b s ++ t) (sym (drop_all b s l)) ∙ slice-drop a b s o))

three_parts : (n : Str) → IsBare n → length n ≡ 12 → normalize_code (three n) ≡ n
unfolding drop
three_parts n p l =
    part 0 4 n _ p (omega arith)
      (part 4 8 n _ p (omega arith) (last_part 8 12 n p (omega arith) (omega arith)))

four_parts : (n : Str) → IsBare n → length n ≡ 16 → normalize_code (four n) ≡ n
unfolding drop
four_parts n p l = part 0 4 n _ p (omega arith) (
    part 4 8 n _ p (omega arith)
      (part 8 12 n _ p (omega arith) (last_part 12 16 n p (omega arith) (omega arith))))

-- Formatting a group code changes neither what it normalises to nor whether it is valid, and a
-- code formatted twice is the code formatted once.
pub normalize_code-format_code :
    (code : Str)
    → (normalize_code (format_code code) ≡ normalize_code code)
      × (valid_code (format_code code) ≡ valid_code code)
      × (format_code (format_code code) ≡ format_code code)
unfolding valid_code format_code
normalize_code-format_code code = elim (Bool-cases (nat_beq (length (normalize_code code)) 16)) [
  | inl full ↦
      let e =
        four_parts (normalize_code code) (normalize_code-IsBare code) (ground (arith, full)) in
      rw (full, e, full) (refl, refl, refl)
  | inr other ↦ rw (other, other) (refl, refl, refl)
]

-- An invite code with dashes normalises to what the code itself does.
pub normalize_code-format_invite :
    (code : Str) → normalize_code (format_invite code) ≡ normalize_code code
unfolding format_invite
normalize_code-format_invite code = elim (Bool-cases (nat_beq (length (normalize_code code)) 12)) [
  | inl full ↦
      rw full
        (three_parts (normalize_code code) (normalize_code-IsBare code) (ground (arith, full)))
  | inr other ↦ rw other refl
]
