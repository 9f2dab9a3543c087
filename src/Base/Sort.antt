-- ===== src/Base/Sort.antt =====
-- `sort.Slice`, as an insertion sort. Go leaves the order of equal elements open.
use mathlib.Core.Bool.{Bool}
use mathlib.Core.List.{List, [], ◌∷◌}
use void_bridge.Base.Tests.{if◌then◌else◌}

module _ {ℓ} {A : Type ℓ} where
  unfoldable pub place : (A → A → Bool) → A → List A → List A
  place less x [] = x ∷ []
  place less x (y ∷ ys) = if less y x then y ∷ place less x ys else x ∷ y ∷ ys

  unfoldable pub sort_by : (A → A → Bool) → List A → List A
  unfolding place
  sort_by less [] = []
  sort_by less (x ∷ xs) = place less x (sort_by less xs)
