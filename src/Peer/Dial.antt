-- ===== src/Peer/Dial.antt =====
-- internal/peer/peer.go: when an address is dialled again.
use void_bridge.Base.{
  ℕ, ◌+◌, ◌*◌, ◌^◌, ◌≡◌, ◌≤◌, ◌<◌, ◌⊎◌, inl, inr, refl, ◌∙◌, true, false, List, [], ◌∷◌, ◌++◌, some,
  Str, str_eq, ltb, min, arith, subst, bytes_eq_iff, bytes_eq, sym, ap, eq_refl, Bool-cases, leb,
  ltb→lt, if◌then◌else◌,
}
use native.Mathlib.Nat.{pow-le-pow_right}
use void_bridge.Base.Dict.{lookup}
use void_bridge.Peer.Manager.{
  Manager, Known, Target, Link, consider, consider_all, is_ready, is_linked, start_dial, same,
  known_addresses, manual_addresses, remembered, addresses, dial_candidates, dial_failed, failed,
  forget_after, second, Dials,
}
use void_bridge.Peer.Targets.{count, target_at, is_dialing, target_at-change_target}
use void_bridge.Peer.Run.{is_in, is_dialing-dial_candidates}

is_in-append_left : (a : Str) (xs ys : List Str) → is_in a xs ≡ true → is_in a (xs ++ ys) ≡ true
unfolding is_in
is_in-append_left a [] ys h = cc
is_in-append_left a (x ∷ xs) ys h = ground (arith, is_in-append_left a xs ys)

is_in-append_right : (a : Str) (xs ys : List Str) → is_in a ys ≡ true → is_in a (xs ++ ys) ≡ true
unfolding is_in
is_in-append_right a [] ys h = h
is_in-append_right a (x ∷ xs) ys h = ground (arith, is_in-append_right a xs ys)

is_in-remembered :
    (now seen : ℕ) (a : Str) (addrs : List (Str × ℕ))
    → lookup a addrs ≡ some seen
    → now ≤ seen + forget_after
    → is_in a (addresses (remembered now addrs)) ≡ true
unfolding lookup remembered addresses is_in
is_in-remembered now seen a [] h le = cc
is_in-remembered now seen a ((b, t) ∷ addrs) h le =
    ground (arith, is_in-remembered now seen a addrs)

is_in-known_addresses :
    (now seen : ℕ) (a id : Str) (k : Known) (links : List (Str × List Link))
    (known : List (Str × Known))
    → lookup id known ≡ some k
    → lookup a k.addrs ≡ some seen
    → is_linked id links ≡ false
    → now ≤ seen + forget_after
    → is_in a (known_addresses now links known) ≡ true
unfolding lookup known_addresses
is_in-known_addresses now seen a id k links [] h g l le = cc
is_in-known_addresses now seen a id k links ((i, j) ∷ known) h g l le = ground (
  arith,
  bytes_eq_iff i id,
  is_in-remembered now seen a k.addrs,
  is_in-append_left a (addresses (remembered now j.addrs)) (known_addresses now links known),
  is_in-append_right a (addresses (remembered now j.addrs)) (known_addresses now links known),
  is_in-known_addresses now seen a id k links known,
)

module _ (now : ℕ) (links : List (Str × List Link)) (a : Str) where
  -- The address is being dialled, or may be.
  abbrev Dialable : Dials → Type 0
  Dialable d = (is_dialing a d.0 ≡ true) ⊎ (is_ready now links (target_at a d.0) ≡ true)

  consider-Dialable : (b : Str) (d : Dials) → Dialable d → Dialable (consider now links b d)
  unfolding consider is_ready
  consider-Dialable b (targets, out) h = ground (
    arith,
    target_at-change_target b a start_dial targets,
    target_at-change_target b a same targets,
    bytes_eq_iff b a,
    h,
  )

  -- What is dialled stays so.
  consider-is_dialing :
      (b : Str) (d : Dials)
      → is_dialing a d.0 ≡ true
      → is_dialing a (consider now links b d).0 ≡ true
  unfolding consider is_ready
  consider-is_dialing b (targets, out) h = ground (
    arith,
    target_at-change_target b a start_dial targets,
    target_at-change_target b a same targets,
    bytes_eq_iff b a,
  )

  consider_self : (d : Dials) → Dialable d → is_dialing a (consider now links a d).0 ≡ true
  unfolding consider is_ready
  consider_self (targets, out) h = ground (
    arith,
    target_at-change_target a a start_dial targets,
    target_at-change_target a a same targets,
    eq_refl a,
  )

  consider_all-is_dialing :
      (addrs : List Str) (d : Dials)
      → is_dialing a d.0 ≡ true
      → is_dialing a (consider_all now links addrs d).0 ≡ true
  unfolding consider_all
  consider_all-is_dialing [] d h = h
  consider_all-is_dialing (b ∷ addrs) d h =
      consider_all-is_dialing addrs (consider now links b d) (consider-is_dialing b d h)

  consider_all-dials :
      (addrs : List Str) (d : Dials)
      → is_in a addrs ≡ true
      → Dialable d
      → is_dialing a (consider_all now links addrs d).0 ≡ true
  unfolding consider_all is_in
  consider_all-dials [] d h r = cc
  consider_all-dials (b ∷ addrs) d h r = elim (Bool-cases (bytes_eq b a)) [
    | inl e ↦
        consider_all-is_dialing addrs (consider now links b d)
          (rw ((bytes_eq_iff b a).0 e) (consider_self d r))
    | inr e ↦
        consider_all-dials addrs (consider now links b d) (rw e at h) (consider-Dialable b d r)
  ]

  consider-waits :
      (b : Str) (d : Dials)
      → is_dialing a d.0 ≡ false
      → now < (target_at a d.0).next
      → (is_dialing a (consider now links b d).0 ≡ false)
        × ((target_at a (consider now links b d).0).next ≡ (target_at a d.0).next)
  unfolding consider is_ready
  consider-waits b (targets, out) h r = ground (
    arith,
    target_at-change_target b a start_dial targets,
    target_at-change_target b a same targets,
    bytes_eq_iff b a,
  )

  -- Nothing is dialled before its time.
  consider_all-waits :
      (addrs : List Str) (d : Dials)
      → is_dialing a d.0 ≡ false
      → now < (target_at a d.0).next
      → (is_dialing a (consider_all now links addrs d).0 ≡ false)
        × ((target_at a (consider_all now links addrs d).0).next ≡ (target_at a d.0).next)
  unfolding consider_all
  consider_all-waits [] d h r = (h, refl)
  consider_all-waits (b ∷ addrs) d h r =
      let w = consider-waits b d h r in
      let ws = consider_all-waits addrs (consider now links b d) w.0 (omega (arith, w.1)) in
      (ws.0, ws.1 ∙ w.1)

abbrev backoff : Target → ℕ
backoff t = second * 2 ^ min (t.fails + 1) 6

backoff_bounds : (t : Target) → (2 * second ≤ backoff t) × (backoff t ≤ 64 * second)
backoff_bounds t = omega (
  arith,
  pow-le-pow_right {n = 2} (omega arith) {i = 1} {j = min (t.fails + 1) 6} (omega arith),
  pow-le-pow_right {n = 2} (omega arith) {i = min (t.fails + 1) 6} {j = 6} (omega arith),
)

dial_candidates-waits :
    (now : ℕ) (a : Str) (m : Manager)
    → is_dialing a m.targets ≡ false
    → now < (target_at a m.targets).next
    → is_dialing a (dial_candidates now m).0.targets ≡ false
unfolding dial_candidates
dial_candidates-waits now a m h r =
    let first = consider_all now m.links (known_addresses now m.links m.known) (m.targets, []) in
    let w =
      consider_all-waits now m.links a (known_addresses now m.links m.known) (m.targets, []) h r in
    (consider_all-waits now m.links a (manual_addresses first.0) first w.0 (omega (arith, w.1))).0

dial_candidates-dials :
    (now seen : ℕ) (a id : Str) (k : Known) (m : Manager)
    → lookup id m.known ≡ some k
    → lookup a k.addrs ≡ some seen
    → now ≤ seen + forget_after
    → is_linked id m.links ≡ false
    → is_ready now m.links (target_at a m.targets) ≡ true
    → is_dialing a (dial_candidates now m).0.targets ≡ true
unfolding dial_candidates
dial_candidates-dials now seen a id k m h g le unlinked ready =
    let first = consider_all now m.links (known_addresses now m.links m.known) (m.targets, []) in
    consider_all-is_dialing now m.links a (manual_addresses first.0) first (
      consider_all-dials now m.links a (known_addresses now m.links m.known) (m.targets, [])
        (is_in-known_addresses now seen a id k m.links m.known h g unlinked le) (inr ready))

target_at-dial_failed :
    (t : ℕ) (a : Str) (m : Manager)
    → target_at a (dial_failed t a m).targets ≡ failed t (target_at a m.targets)
unfolding dial_failed
target_at-dial_failed t a m =
    ground (arith, target_at-change_target a a (failed t) m.targets, eq_refl a)

dial_failed-tried :
    (m : Manager) (a id : Str) (k : Known) (t now seen : ℕ)
    → lookup id m.known ≡ some k
    → lookup a k.addrs ≡ some seen
    → now ≤ seen + forget_after
    → is_linked id m.links ≡ false
    → is_linked (target_at a m.targets).last_id m.links ≡ false
    → let wait = backoff (target_at a m.targets) in
      (is_dialing a (dial_candidates now (dial_failed t a m)).0.targets ≡ leb (t + wait) now)
      × ((2 * second ≤ wait) × (wait ≤ 64 * second))
unfolding dial_failed
dial_failed-tried m a id k t now seen h g le unlinked last =
    let changed = target_at-dial_failed t a m in
    elim (Bool-cases (ltb now (t + backoff (target_at a m.targets)))) [
      | inl early ↦ (
        dial_candidates-waits now a (dial_failed t a m) (ap (λ (c : Target). c.dialing) changed)
              (subst (λ (c : Target). now < c.next) (sym changed) (ltb→lt _ _ early))
            ∙ ground (arith),
        backoff_bounds (target_at a m.targets),
      )
      | inr late ↦ (
        dial_candidates-dials now seen a id k (dial_failed t a m) h g le unlinked (
              subst (λ (c : Target). is_ready now m.links c ≡ true) (sym changed)
                (unfold is_ready in (ground (arith, last))))
            ∙ ground (arith),
        backoff_bounds (target_at a m.targets),
      )
    ]

-- A dial of an address failed at `t`. As long as the address belongs to a known device that is not
-- linked, was seen in the last half hour, and did not lead to a device that is linked, the next
-- round that picks addresses gives it out to be dialled, once, and marks it as being dialled, if
-- `2 ^ min fails 6` seconds have passed, and does neither before. `fails` counts the failures in a
-- row, this one included; the time is two seconds at least and 64 at most.
pub dial_candidates-dial_failed :
    (m : Manager) (a id : Str) (k : Known) (t now seen : ℕ)
    → lookup id m.known ≡ some k
    → lookup a k.addrs ≡ some seen
    → now ≤ seen + forget_after
    → is_linked id m.links ≡ false
    → is_linked (target_at a m.targets).last_id m.links ≡ false
    → let (m', picked) = dial_candidates now (dial_failed t a m) in
      let wait = second * 2 ^ min ((target_at a m.targets).fails + 1) 6 in
      (count a picked ≡ (if leb (t + wait) now then 1 else 0))
      × (is_dialing a m'.targets ≡ leb (t + wait) now)
      × ((2 * second ≤ wait) × (wait ≤ 64 * second))
dial_candidates-dial_failed m a id k t now seen h g le unlinked last =
    let tried = dial_failed-tried m a id k t now seen h g le unlinked last in
    (
      ground (
        arith,
        is_dialing-dial_candidates a now (dial_failed t a m),
        ap (λ (c : Target). c.dialing) (target_at-dial_failed t a m),
        tried.0,
      ),
      tried.0,
      tried.1,
    )
