-- ===== src/Protocol/Code/Trim.antt =====
-- internal/protocol/protocol.go: what trimming leaves alone.
use void_bridge.Base.{ℕ, ◌≡◌, refl, ◌∙◌, Bool, false, [], ◌∷◌, Str, ap, All, All-append}
use mathlib.Core.List.{reverse, reverse-cons, reverse-reverse}
use void_bridge.Protocol.Code.{is_space, trim_left, trim_right, trim_space}

-- No character of the text passes the test.
abbrev pub NoneOf : (ℕ → Bool) → Str → Type 0
NoneOf p s = All (λ c. p c ≡ false) s

pub All-reverse {κ} : (P : ℕ → Type κ) (s : Str) → All P s → All P (reverse s)
All-reverse P [] a = tt
All-reverse P (c ∷ s) a =
    rw (reverse-cons c s) (All-append P (reverse s) (c ∷ []) (All-reverse P s a.1) (a.0, tt))

trim_left-NoneOf : (p : ℕ → Bool) (s : Str) → NoneOf p s → trim_left p s ≡ s
unfolding trim_left
trim_left-NoneOf p [] a = refl
trim_left-NoneOf p (c ∷ s) a = rw (a.0) refl

trim_right-NoneOf : (p : ℕ → Bool) (s : Str) → NoneOf p s → trim_right p s ≡ s
unfolding trim_right
trim_right-NoneOf p s a =
    ap reverse (trim_left-NoneOf p (reverse s) (All-reverse (λ c. p c ≡ false) s a))
    ∙ reverse-reverse s

pub trim_space-NoneOf : (s : Str) → NoneOf is_space s → trim_space s ≡ s
unfolding trim_space
trim_space-NoneOf s a =
    ap (trim_left is_space) (trim_right-NoneOf is_space s a) ∙ trim_left-NoneOf is_space s a
