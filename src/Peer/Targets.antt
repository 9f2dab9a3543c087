-- ===== src/Peer/Targets.antt =====
-- internal/peer/peer.go: what each operation does to the target of one address.
use void_bridge.Base.{
  ℕ, ◌+◌, ◌≡◌, refl, ◌∙◌, Bool, List, [], ◌∷◌, ◌++◌, Str, str_eq, ◌==◌, arith, if◌then◌else◌,
  bytes_eq_iff, bytes_eq, Bool-cases, inl, inr, ap,
}
use void_bridge.Base.Dict.{lookup, lookup-insert}
use void_bridge.Peer.Manager.{
  Target, Link, target_or_new, change_target, mark_all, clear_manual, Dials, consider, consider_all,
  is_ready, start_dial, same,
}

-- The target of an address, as `m.target(addr)` gives it.
abbrev pub target_at : Str → List (Str × Target) → Target
target_at a targets = target_or_new (lookup a targets)

abbrev pub is_dialing : Str → List (Str × Target) → Bool
is_dialing a targets = (target_at a targets).dialing

pub target_at-change_target :
    (a b : Str) (f : Target → Target) (targets : List (Str × Target))
    → target_at b (change_target a f targets)
      ≡ (if a == b then f (target_at b targets) else target_at b targets)
unfolding change_target
target_at-change_target a b f targets = elim (Bool-cases (bytes_eq a b)) [
  | inl e ↦
      rw (lookup-insert a b (f (target_at a targets)) targets, e)
        (ap (λ c. f (target_at c targets)) ((bytes_eq_iff a b).0 e))
  | inr e ↦ rw (lookup-insert a b (f (target_at a targets)) targets, e) refl
]

pub is_dialing-change_target :
    (a b : Str) (f : Target → Target) (targets : List (Str × Target))
    → ((t : Target) → (f t).dialing ≡ t.dialing)
    → is_dialing b (change_target a f targets) ≡ is_dialing b targets
is_dialing-change_target a b f targets h =
    ground (arith, target_at-change_target a b f targets, h (target_at b targets))

pub is_dialing-mark_all :
    (b : Str) (f : Target → Target) (addrs : List Str) (targets : List (Str × Target))
    → ((t : Target) → (f t).dialing ≡ t.dialing)
    → is_dialing b (mark_all f addrs targets) ≡ is_dialing b targets
unfolding mark_all
is_dialing-mark_all b f [] targets h = refl
is_dialing-mark_all b f (a ∷ addrs) targets h =
    is_dialing-mark_all b f addrs (change_target a f targets) h
    ∙ is_dialing-change_target a b f targets h

pub is_dialing-clear_manual :
    (b : Str) (targets : List (Str × Target))
    → is_dialing b (clear_manual targets) ≡ is_dialing b targets
unfolding clear_manual lookup
is_dialing-clear_manual b [] = refl
is_dialing-clear_manual b ((a, t) ∷ targets) = ground (arith, is_dialing-clear_manual b targets)

-- How often an address stands in a list.
unfoldable pub count : Str → List Str → ℕ
count a [] = 0
count a (x ∷ xs) = (if x == a then 1 else 0) + count a xs

pub count-append : (a : Str) (xs ys : List Str) → count a (xs ++ ys) ≡ count a xs + count a ys
unfolding count
count-append a [] ys = omega arith
count-append a (x ∷ xs) ys = omega (arith, count-append a xs ys)

abbrev pub flag : Str → List (Str × Target) → ℕ
flag a targets = if is_dialing a targets then 1 else 0

module _ (now : ℕ) (links : List (Str × List Link)) (a : Str) where
  -- Each address that a round picks is from then on marked, and was not before.
  pub count-consider :
      (b : Str) (d : Dials)
      → count a (consider now links b d).1 + flag a d.0
        ≡ count a d.1 + flag a (consider now links b d).0
  unfolding consider is_ready count
  count-consider b (targets, out) = ground (
    arith,
    target_at-change_target b a start_dial targets,
    target_at-change_target b a same targets,
    count-append a out (b ∷ []),
    bytes_eq_iff b a,
  )

  pub count-consider_all :
      (addrs : List Str) (d : Dials)
      → count a (consider_all now links addrs d).1 + flag a d.0
        ≡ count a d.1 + flag a (consider_all now links addrs d).0
  unfolding consider_all
  count-consider_all [] d = refl
  count-consider_all (b ∷ addrs) d =
      omega (arith, count-consider b d, count-consider_all addrs (consider now links b d))
