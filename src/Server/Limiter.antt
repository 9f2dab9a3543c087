-- ===== src/Server/Limiter.antt =====
-- internal/server/server.go: the limit on failed logins. Times are in nanoseconds.
use void_bridge.Base.{
  ℕ, ◌+◌, ◌*◌, ◌^◌, ◌≤◌, ◌≡◌, refl, Bool, false, List, [], ◌∷◌, Option, none, some, Str, str_eq,
  ◌==◌, arith, ltb, leb, if◌then◌else◌, length, All, Bool-cases, inl, inr, bytes_eq_iff, bytes_eq,
  eq_refl, ◌∙◌,
}
use void_bridge.Base.Dict.{
  lookup, insert, delete, sweep, IsDistinct, lookup-insert, lookup-sweep, insert-IsDistinct,
  sweep-IsDistinct,
}

pub record Failure : Type 0 where
  pub count : ℕ
  pub first : ℕ

abbrev pub Limiter : Type 0
Limiter = List (Str × Failure)

abbrev pub max_fails : ℕ
max_fails = 10

abbrev pub fail_window : ℕ
fail_window = 15 * 60 * 10 ^ 9

abbrev pub is_over : ℕ → Failure → Bool
is_over now f = ltb (f.first + fail_window) now

unfoldable pub blocked : ℕ → Str → Limiter → Limiter × Bool
blocked now key l = elim (lookup key l) [
  | none ↦ (l, false)
  | some f ↦ if is_over now f then (delete key l, false) else (l, leb max_fails f.count)
]

-- Many different addresses: the entries whose window is over go.
unfoldable pub prune : ℕ → Limiter → Limiter
prune now l = if ltb 10000 (length l) then sweep (is_over now) l else l

-- One more failure, or the first of a new window.
abbrev pub counted : ℕ → Option Failure → Failure
counted now none = record { count = 1; first = now }
counted now (some f) =
    if is_over now f
    then record { count = 1; first = now }
    else record { count = f.count + 1; first = f.first }

unfoldable pub fail : ℕ → Str → Limiter → Limiter
unfolding prune
fail now key l = let l' = prune now l in insert key (counted now (lookup key l')) l'

fail-IsDistinct : (now : ℕ) (key : Str) (l : Limiter) → IsDistinct l → IsDistinct (fail now key l)
unfolding fail
fail-IsDistinct now key l d = elim (Bool-cases (ltb 10000 (length l))) [
  | inl many ↦
      rw (fail, prune, many)
        (insert-IsDistinct key _ (sweep (is_over now) l) (sweep-IsDistinct (is_over now) l d))
  | inr few ↦ rw (fail, prune, few) (insert-IsDistinct key _ l d)
]

prune-lookup :
    (now : ℕ) (key : Str) (l : Limiter) (f : Failure)
    → IsDistinct l
    → lookup key l ≡ some f
    → is_over now f ≡ false
    → lookup key (prune now l) ≡ some f
unfolding prune
prune-lookup now key l f d e h = ground (arith, lookup-sweep (is_over now) key l d)

prune-none :
    (now : ℕ) (key : Str) (l : Limiter)
    → IsDistinct l
    → lookup key l ≡ none
    → lookup key (prune now l) ≡ none
unfolding prune
prune-none now key l d e = ground (arith, lookup-sweep (is_over now) key l d)

fail-lookup :
    (now : ℕ) (k key : Str) (l : Limiter) (f : Failure)
    → IsDistinct l
    → lookup key l ≡ some f
    → is_over now f ≡ false
    → lookup key (fail now k l)
      ≡ some (record { count = f.count + (if k == key then 1 else 0); first = f.first })
unfolding fail
fail-lookup now k key l f d e h =
    lookup-insert k key (counted now (lookup k (prune now l))) (prune now l)
    ∙ elim (Bool-cases (bytes_eq k key)) [
      | inl same ↦
          let p = (bytes_eq_iff k key).0 same in
          rw (same, p, prune-lookup now key l f d e h, h) refl
      | inr other ↦ rw (other, prune-lookup now key l f d e h) (ground arith)
    ]

-- Failures as they come: the time and the key of each.
unfoldable pub fail_all : List (ℕ × Str) → Limiter → Limiter
unfolding fail
fail_all [] l = l
fail_all ((now, key) ∷ es) l = fail_all es (fail now key l)

unfoldable pub fails_of : Str → List (ℕ × Str) → ℕ
fails_of key [] = 0
fails_of key ((now, k) ∷ es) = (if k == key then 1 else 0) + fails_of key es

fail_all-lookup :
    (es : List (ℕ × Str)) (key : Str) (l : Limiter) (f : Failure)
    → IsDistinct l
    → lookup key l ≡ some f
    → All (λ e. e.0 ≤ f.first + fail_window) es
    → lookup key (fail_all es l)
      ≡ some (record { count = f.count + fails_of key es; first = f.first })
unfolding fail_all fails_of
fail_all-lookup [] key l f d e h = ground arith
fail_all-lookup ((now, k) ∷ es) key l f d e h =
    let f' : Failure = record f { count = f.count + (if k == key then 1 else 0) } in
    fail_all-lookup es key (fail now k l) f' (fail-IsDistinct now k l d)
      (fail-lookup now k key l f d e (ground arith)) h.1
    ∙ ground arith

first-lookup :
    (now : ℕ) (key : Str) (l : Limiter)
    → IsDistinct l
    → lookup key l ≡ none
    → lookup key (fail now key l) ≡ some (record { count = 1; first = now })
unfolding fail
first-lookup now key l d e =
    lookup-insert key key (counted now (lookup key (prune now l))) (prune now l)
    ∙ ground (arith, eq_refl key, prune-none now key l d e)

blocked_found :
    (t : ℕ) (key : Str) (l : Limiter) (f : Failure)
    → lookup key l ≡ some f
    → (blocked t key l).1 ≡ (if is_over t f then false else leb max_fails f.count)
unfolding blocked
blocked_found t key l f e = ground arith

-- In a limiter that does not know the key, after a first failure of a key at `t₀` and other
-- failures, of any keys and within 15 minutes of it, the key is blocked at a time exactly if that
-- is within the 15 minutes too and the key has failed ten times or more. The 15 minutes are those
-- after the first failure: a block ends with them, however late the tenth failure was.
pub blocked-fail_all :
    (t t₀ : ℕ) (key : Str) (es : List (ℕ × Str)) (l : Limiter)
    → IsDistinct l
    → lookup key l ≡ none
    → All (λ e. e.0 ≤ t₀ + fail_window) es
    → (blocked t key (fail_all es (fail t₀ key l))).1
      ≡ (if ltb (t₀ + fail_window) t then false else leb max_fails (1 + fails_of key es))
blocked-fail_all t t₀ key es l d new h = blocked_found t key (fail_all es (fail t₀ key l)) _ (
    fail_all-lookup es key (fail t₀ key l) (record { count = 1; first = t₀ })
      (fail-IsDistinct t₀ key l d) (first-lookup t₀ key l d new) h)
