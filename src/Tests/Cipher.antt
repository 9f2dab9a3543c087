-- ===== src/Tests/Cipher.antt =====
-- A cipher that meets the laws: the sealed text carries the key, the nonce and the associated
-- data, each with its length.
use void_bridge.Base.{
  ◌≡◌, refl, [], ◌∷◌, ◌++◌, Option, none, some, Str, arith, length, nat_beq, inl, inr,
  if◌then◌else◌, Option-cases,
}
use void_bridge.Protocol.Crypto.{Aead, IsAead, Hashes}

unfoldable pub strip_prefix : Str → Str → Option Str
strip_prefix [] s = some s
strip_prefix (x ∷ xs) [] = none
strip_prefix (x ∷ xs) (y ∷ ys) = let rest = strip_prefix xs ys in if nat_beq x y then rest else none

unfoldable pub strip : Str → Str → Option Str
unfolding strip_prefix
strip x [] = none
strip x (l ∷ s) = if nat_beq l (length x) then strip_prefix x s else none

abbrev framed : Str → Str → Str
framed x s = length x ∷ (x ++ s)

abbrev then_strip : Str → Option Str → Option Str
then_strip x none = none
then_strip x (some s) = strip x s

abbrev pub toy : Aead
toy = record {
  seal = λ k n p a. framed k (framed n (framed a p));
  open_sealed = λ k n s a. then_strip a (then_strip n (strip k s));
}

strip_prefix-append : (x s : Str) → strip_prefix x (x ++ s) ≡ some s
unfolding strip_prefix
strip_prefix-append [] s = refl
strip_prefix-append (x ∷ xs) s = ground (arith, strip_prefix-append xs s)

strip_prefix_same :
    (x y s q : Str) → length y ≡ length x → strip_prefix y (x ++ s) ≡ some q → (y ≡ x) × (q ≡ s)
unfolding strip_prefix
strip_prefix_same [] [] s q l h = ground arith
strip_prefix_same [] (b ∷ y) s q l h = ground arith
strip_prefix_same (a ∷ x) [] s q l h = ground arith
strip_prefix_same (a ∷ x) (b ∷ y) s q l h = ground (arith, strip_prefix_same x y s q)

strip-framed : (x s : Str) → strip x (framed x s) ≡ some s
unfolding strip
strip-framed x s = ground (arith, strip_prefix-append x s)

strip_same : (x y s q : Str) → strip y (framed x s) ≡ some q → (y ≡ x) × (q ≡ s)
unfolding strip
strip_same x y s q h = ground (arith, strip_prefix_same x y s q)

toy-open :
    (k n p a k' n' a' q : Str)
    → then_strip a' (then_strip n' (strip k' (framed k (framed n (framed a p))))) ≡ some q
    → (k' ≡ k) × (n' ≡ n) × (a' ≡ a)
toy-open k n p a k' n' a' q h = elim (Option-cases (strip k' (framed k (framed n (framed a p))))) [
  | inl e ↦ absurd (ground arith)
  | inr (s, e) ↦
      let (ek, es) = strip_same k k' (framed n (framed a p)) s e in
      elim (Option-cases (strip n' (framed n (framed a p)))) [
        | inl f ↦ absurd (ground arith)
        | inr (s', f) ↦
            let (en, fs) = strip_same n n' (framed a p) s' f in
            let (ea, _) = strip_same a a' p q (ground arith) in (ek, en, ea)
      ]
]

pub toy-IsAead : IsAead toy
toy-IsAead = record {
  open-seal = λ k n p a.
      rw (strip-framed k (framed n (framed a p)), strip-framed n (framed a p)) (strip-framed a p);
  open-seal_bound = λ k n p a {k'} {n'} {a'} {q} h. toy-open k n p a k' n' a' q h;
}

-- Hashes without collisions.
abbrev pub plain_hashes : Hashes
plain_hashes = record { sha256_hex = λ s. s; hmac = λ k s. k ++ s; hkdf = λ k s. k ++ s }
