-- ===== src/Peer/Run.antt =====
-- internal/peer/peer.go: any order of what the goroutines of the manager do. A dial that runs is
-- a goroutine, and its locked part ends it.
use void_bridge.Base.{
  ℕ, ◌+◌, ◌≡◌, refl, ◌∙◌, Bool, true, false, not, List, [], ◌∷◌, ◌++◌, Str, str_eq, nat_eq, ◌==◌,
  arith, if◌then◌else◌, bytes_eq_iff, filterb, map, ap, sym,
}
use void_bridge.Protocol.Message.{Identity, PeerInfo}
use void_bridge.Peer.Manager.{
  Manager, Target, Link, new_manager, set_manual, add_targets, learn, learn_one, heard,
  dial_candidates, dial_failed, dial_reached, open_link, close_link, change_target, failed, reached,
  mark_manual, dial_now, clear_manual, mark_manual_now, consider_all, known_addresses,
  manual_addresses,
}
use void_bridge.Peer.Targets.{
  target_at, target_at-change_target, is_dialing-change_target, is_dialing-mark_all,
  is_dialing-clear_manual, count, count-append, flag, count-consider_all,
}

pub data Event : Type 0 where
  sets_manual adds_targets : List Str → Event
  learns : ℕ → List PeerInfo → Event
  hears : ℕ → (id name kind addr : Str) → Event
  ticks : ℕ → Event
  dial_fails : ℕ → Str → Event
  dial_reaches : ℕ → (addr id : Str) → Event
  links_up : ℕ → Link → Identity → List Str → Event
  links_down : ℕ → Str → Event

pub record World : Type 0 where
  pub manager : Manager
  pub flying : List Str

abbrev pub start : Identity → World
start me = record { manager = new_manager me; flying = [] }

unfoldable pub remove_one : Str → List Str → List Str
remove_one a [] = []
remove_one a (x ∷ xs) = if x == a then xs else x ∷ remove_one a xs

unfoldable pub is_in : Str → List Str → Bool
is_in a [] = false
is_in a (x ∷ xs) = if x == a then true else is_in a xs

abbrev pub ticked : ℕ → World → World
ticked now w =
    let r = dial_candidates now w.manager in record { manager = r.0; flying = w.flying ++ r.1 }

abbrev pub landed : Str → (Manager → Manager) → World → World
landed addr f w =
    if is_in addr w.flying
    then record { manager = f w.manager; flying = remove_one addr w.flying }
    else w

abbrev pub with_manager : (Manager → Manager) → World → World
with_manager f w = record w { manager = f w.manager }

-- The end of a dial that does not run is no step.
module _ (norm_addr : Str → Str) (usable : Str → Bool) where
  unfoldable pub step : Event → World → World
  step (sets_manual addrs) = with_manager (set_manual norm_addr addrs)
  step (adds_targets addrs) = with_manager (add_targets addrs)
  step (learns now ps) = with_manager (learn usable now ps)
  step (hears now id name kind addr) = with_manager (heard now id name kind addr)
  step (ticks now) = ticked now
  step (dial_fails now addr) = landed addr (dial_failed now addr)
  step (dial_reaches now addr id) = landed addr (dial_reached now addr id)
  step (links_up now l peer addrs) = with_manager (λ m. (open_link now l peer addrs m).0)
  step (links_down number id) = with_manager (close_link number id)

  unfoldable pub run : List Event → World → World
  unfolding step
  run [] w = w
  run (e ∷ es) w = run es (step e w)

count-remove_one :
    (a b : Str) (xs : List Str)
    → is_in a xs ≡ true
    → count b (remove_one a xs) + (if a == b then 1 else 0) ≡ count b xs
unfolding count remove_one is_in
count-remove_one a b [] h = ground arith
count-remove_one a b (x ∷ xs) h =
    ground (arith, count-remove_one a b xs, bytes_eq_iff x a, bytes_eq_iff x b, bytes_eq_iff a b)

-- As many dials of the address run as its target says.
abbrev pub IsMatched : World → Type 0
IsMatched w = (a : Str) → count a w.flying ≡ flag a w.manager.targets

landed-IsMatched :
    (addr : Str) (f : Target → Target) (w : World)
    → ((t : Target) → (f t).dialing ≡ false)
    → IsMatched w
    → IsMatched (landed addr (λ m. record m { targets = change_target addr f m.targets }) w)
landed-IsMatched addr f w off h a = ground (
  arith,
  count-remove_one addr a w.flying,
  target_at-change_target addr a f w.manager.targets,
  bytes_eq_iff addr a,
  off (target_at a w.manager.targets),
  h a,
)

learn-targets :
    (usable : Str → Bool) (now : ℕ) (ps : List PeerInfo) (m : Manager)
    → (learn usable now ps m).targets ≡ m.targets
unfolding learn
learn-targets usable now [] m = refl
learn-targets usable now (p ∷ ps) m =
    learn-targets usable now ps (learn_one usable now p m) ∙ ground arith

pub is_dialing-dial_candidates :
    (a : Str) (now : ℕ) (m : Manager)
    → count a (dial_candidates now m).1 + flag a m.targets
      ≡ flag a (dial_candidates now m).0.targets
unfolding dial_candidates count
is_dialing-dial_candidates a now m =
    let first = consider_all now m.links (known_addresses now m.links m.known) (m.targets, []) in
    omega (
      arith,
      count-consider_all now m.links a (known_addresses now m.links m.known) (m.targets, []),
      count-consider_all now m.links a (manual_addresses first.0) first,
    )

module _ (norm_addr : Str → Str) (usable : Str → Bool) where
  step-IsMatched : (e : Event) (w : World) → IsMatched w → IsMatched (step norm_addr usable e w)
  unfolding step set_manual add_targets heard dial_failed dial_reached open_link close_link
  step-IsMatched (sets_manual addrs) w h a =
      let manual = filterb (λ b. not (b == [])) (map norm_addr addrs) in
      h a
      ∙ ap (λ (b : Bool). if b then 1 else 0)
          (sym (
            is_dialing-mark_all a mark_manual_now manual (clear_manual w.manager.targets)
              (λ t. refl)
            ∙ is_dialing-clear_manual a w.manager.targets))
  step-IsMatched (adds_targets addrs) w h a =
      ground (arith, is_dialing-mark_all a mark_manual addrs w.manager.targets (λ t. refl), h a)
  step-IsMatched (learns now ps) w h a = rw (learn-targets usable now ps w.manager) (h a)
  step-IsMatched (hears now id name kind addr) w h a =
      ground (arith, is_dialing-change_target addr a dial_now w.manager.targets (λ t. refl), h a)
  step-IsMatched (ticks now) w h a = ground (
    arith,
    count-append a w.flying (dial_candidates now w.manager).1,
    is_dialing-dial_candidates a now w.manager,
    h a,
  )
  step-IsMatched (dial_fails now addr) w h a = landed-IsMatched addr (failed now) w (λ t. refl) h a
  step-IsMatched (dial_reaches now addr id) w h a =
      landed-IsMatched addr (reached now id) w (λ t. refl) h a
  step-IsMatched (links_up now l peer addrs) w h a = ground (arith, h a)
  step-IsMatched (links_down number id) w h a = h a

  pub run-IsMatched :
      (es : List Event) (w : World) → IsMatched w → IsMatched (run norm_addr usable es w)
  unfolding run
  run-IsMatched [] w h = h
  run-IsMatched (e ∷ es) w h = run-IsMatched es (step norm_addr usable e w) (step-IsMatched e w h)
