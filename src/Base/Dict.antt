-- ===== src/Base/Dict.antt =====
-- Go maps as association lists; a write replaces the entry in place.
use mathlib.Core.Path.{◌≡◌, refl}
use mathlib.Core.Bool.{Bool}
use mathlib.Core.Option.{Option, none, some}
use mathlib.Core.List.{List, [], ◌∷◌}
use native.Mathlib.Omega.{arith}
use void_bridge.Base.Tests.{Eq, ◌==◌, if◌then◌else◌, Bool-cases}
use void_bridge.Base.Lists.{All}
use mathlib.Core.Logic.{inl, inr}

-- What a sweep leaves of an entry.
abbrev pub unswept {ℓ} : {V : Type ℓ} → (V → Bool) → Option V → Option V
unswept p none = none
unswept p (some v) = if p v then none else some v

module _ {ℓ κ} {K : Type ℓ} {V : Type κ} ⦃e : Eq K⦄ where
  unfoldable pub lookup : K → List (K × V) → Option V
  lookup k [] = none
  lookup k ((j, v) ∷ es) = if j == k then some v else lookup k es

  unfoldable pub insert : K → V → List (K × V) → List (K × V)
  insert k v [] = (k, v) ∷ []
  insert k v ((j, w) ∷ es) = if j == k then (k, v) ∷ es else (j, w) ∷ insert k v es

  unfoldable pub delete : K → List (K × V) → List (K × V)
  delete k [] = []
  delete k ((j, w) ∷ es) = if j == k then delete k es else (j, w) ∷ delete k es

  -- `for k, v := range m { if p(v) { delete(m, k) } }`
  unfoldable pub sweep : (V → Bool) → List (K × V) → List (K × V)
  sweep p [] = []
  sweep p ((j, w) ∷ es) = if p w then sweep p es else (j, w) ∷ sweep p es

  -- No key stands twice.
  abbrev pub IsDistinct : List (K × V) → Type κ
  IsDistinct [] = Unit
  IsDistinct ((k, v) ∷ es) = (lookup k es ≡ none) × IsDistinct es

  pub lookup-insert :
      (k j : K) (v : V) (es : List (K × V))
      → lookup j (insert k v es) ≡ (if k == j then some v else lookup j es)
  unfolding lookup insert
  lookup-insert k j v [] = refl
  lookup-insert k j v ((i, w) ∷ es) =
      ground (arith, e.equal_iff k j, e.equal_iff i k, e.equal_iff i j, lookup-insert k j v es)

  pub lookup-delete :
      (k j : K) (es : List (K × V))
      → lookup j (delete k es) ≡ (if k == j then none else lookup j es)
  unfolding lookup delete
  lookup-delete k j [] = ground arith
  lookup-delete k j ((i, w) ∷ es) =
      ground (arith, e.equal_iff k j, e.equal_iff i k, e.equal_iff i j, lookup-delete k j es)

  pub lookup-sweep :
      (p : V → Bool) (k : K) (es : List (K × V))
      → IsDistinct es
      → lookup k (sweep p es) ≡ unswept p (lookup k es)
  unfolding lookup sweep
  lookup-sweep p k [] d = refl
  lookup-sweep p k ((i, w) ∷ es) d = ground (arith, e.equal_iff i k, lookup-sweep p k es d.1)

  pub insert-IsDistinct :
      (k : K) (v : V) (es : List (K × V)) → IsDistinct es → IsDistinct (insert k v es)
  unfolding lookup insert
  insert-IsDistinct k v [] d = ground arith
  insert-IsDistinct k v ((i, w) ∷ es) d = ground (
    arith,
    e.equal_iff i k,
    e.equal_iff k i,
    lookup-insert k i v es,
    insert-IsDistinct k v es d.1,
  )

  pub delete-IsDistinct : (k : K) (es : List (K × V)) → IsDistinct es → IsDistinct (delete k es)
  unfolding lookup delete
  delete-IsDistinct k [] d = d
  delete-IsDistinct k ((i, w) ∷ es) d =
      ground (arith, lookup-delete k i es, delete-IsDistinct k es d.1)

  pub sweep-IsDistinct :
      (p : V → Bool) (es : List (K × V)) → IsDistinct es → IsDistinct (sweep p es)
  unfolding lookup sweep
  sweep-IsDistinct p [] d = d
  sweep-IsDistinct p ((i, w) ∷ es) d =
      ground (arith, lookup-sweep p i es d.1, sweep-IsDistinct p es d.1)

  pub lookup-sweep-none :
      (p : V → Bool) (k : K) (es : List (K × V)) → lookup k es ≡ none → lookup k (sweep p es) ≡ none
  unfolding lookup sweep
  lookup-sweep-none p k [] h = h
  lookup-sweep-none p k ((i, w) ∷ es) h = ground (arith, lookup-sweep-none p k es)

  pub insert-All {ℓ'} :
      (P : K × V → Type ℓ') (k : K) (v : V) (es : List (K × V))
      → P (k, v)
      → All P es
      → All P (insert k v es)
  unfolding insert
  insert-All P k v [] h a = (h, a)
  insert-All P k v ((i, w) ∷ es) h a = elim (Bool-cases (i == k)) [
    | inl e ↦ rw e (h, a.1)
    | inr e ↦ rw e (a.0, insert-All P k v es h a.1)
  ]

  pub delete-All {ℓ'} :
      (P : K × V → Type ℓ') (k : K) (es : List (K × V)) → All P es → All P (delete k es)
  unfolding delete
  delete-All P k [] a = a
  delete-All P k ((i, w) ∷ es) a = elim (Bool-cases (i == k)) [
    | inl e ↦ rw e (delete-All P k es a.1)
    | inr e ↦ rw e (a.0, delete-All P k es a.1)
  ]

  pub sweep-All {ℓ'} :
      (P : K × V → Type ℓ') (p : V → Bool) (es : List (K × V)) → All P es → All P (sweep p es)
  unfolding sweep
  sweep-All P p [] a = a
  sweep-All P p ((i, w) ∷ es) a = elim (Bool-cases (p w)) [
    | inl e ↦ rw e (sweep-All P p es a.1)
    | inr e ↦ rw e (a.0, sweep-All P p es a.1)
  ]
