-- ===== src/Peer/Links.antt =====
-- internal/peer/peer.go: over any run, no address is dialled twice at once, and no device has two
-- links that were dialled.
use void_bridge.Base.{
  ℕ, ◌+◌, ◌≡◌, ◌≤◌, refl, ◌∙◌, Bool, false, not, List, [], ◌∷◌, Str, str_eq, nat_eq, ◌==◌, arith,
  if◌then◌else◌, filterb,
}
use void_bridge.Base.Dict.{lookup, lookup-insert, lookup-delete}
use void_bridge.Protocol.Message.{Identity, PeerInfo}
use void_bridge.Peer.Manager.{
  Manager, Link, new_manager, set_manual, add_targets, learn, learn_one, heard, dial_candidates,
  dial_failed, dial_reached, open_link, close_link, is_linked, links_of,
}
use void_bridge.Peer.Targets.{count, flag}
use void_bridge.Peer.Run.{Event, World, start, step, run, run-IsMatched}

-- How many of the links were dialled by this device.
unfoldable pub dialled : List Link → ℕ
dialled [] = 0
dialled (l ∷ ls) = (if l.dialer then 1 else 0) + dialled ls

abbrev AtMostOne : Manager → Type 0
AtMostOne m = (id : Str) → dialled (links_of id m.links) ≤ 1

dialled-filterb : (p : Link → Bool) (ls : List Link) → dialled (filterb p ls) ≤ dialled ls
unfolding dialled filterb
dialled-filterb p [] = omega arith
dialled-filterb p (l ∷ ls) = ground (arith, dialled-filterb p ls)

dialled-unlinked :
    (id : Str) (links : List (Str × List Link))
    → is_linked id links ≡ false
    → dialled (links_of id links) ≡ 0
unfolding is_linked dialled
dialled-unlinked id links h = ground arith

open_link-AtMostOne :
    (now : ℕ) (l : Link) (peer : Identity) (addrs : List Str) (m : Manager)
    → AtMostOne m
    → AtMostOne (open_link now l peer addrs m).0
unfolding open_link dialled
open_link-AtMostOne now l peer addrs m h id = ground (
  arith,
  dialled-unlinked peer.id m.links,
  lookup-insert peer.id id (l ∷ links_of peer.id m.links) m.links,
  h id,
  h peer.id,
)

close_link-AtMostOne :
    (number : ℕ) (id : Str) (m : Manager) → AtMostOne m → AtMostOne (close_link number id m)
unfolding close_link dialled
close_link-AtMostOne number id m h id' =
    let rest = filterb (λ (l : Link). not (l.number == number)) (links_of id m.links) in
    ground (
      arith,
      dialled-filterb (λ (l : Link). not (l.number == number)) (links_of id m.links),
      lookup-insert id id' rest m.links,
      lookup-delete id id' m.links,
      h id',
      h id,
    )

learn-links :
    (usable : Str → Bool) (now : ℕ) (ps : List PeerInfo) (m : Manager)
    → (learn usable now ps m).links ≡ m.links
unfolding learn
learn-links usable now [] m = refl
learn-links usable now (p ∷ ps) m =
    learn-links usable now ps (learn_one usable now p m) ∙ ground arith

module _ (norm_addr : Str → Str) (usable : Str → Bool) where
  step-AtMostOne :
      (e : Event) (w : World) → AtMostOne w.manager → AtMostOne (step norm_addr usable e w).manager
  unfolding step set_manual add_targets heard dial_candidates dial_failed dial_reached
  step-AtMostOne (Event.sets_manual addrs) w h id = h id
  step-AtMostOne (Event.adds_targets addrs) w h id = h id
  step-AtMostOne (Event.learns now ps) w h id = rw (learn-links usable now ps w.manager) (h id)
  step-AtMostOne (Event.hears now i name kind addr) w h id = h id
  step-AtMostOne (Event.ticks now) w h id = h id
  step-AtMostOne (Event.dial_fails now addr) w h id = ground (arith, h id)
  step-AtMostOne (Event.dial_reaches now addr i) w h id = ground (arith, h id)
  step-AtMostOne (Event.links_up now l peer addrs) w h id =
      open_link-AtMostOne now l peer addrs w.manager h id
  step-AtMostOne (Event.links_down number i) w h id = close_link-AtMostOne number i w.manager h id

  run-AtMostOne :
      (es : List Event) (w : World)
      → AtMostOne w.manager
      → AtMostOne (run norm_addr usable es w).manager
  unfolding run
  run-AtMostOne [] w h = h
  run-AtMostOne (e ∷ es) w h = run-AtMostOne es (step norm_addr usable e w) (step-AtMostOne e w h)

-- Whatever the goroutines of a new manager do, and in whatever order: of each address as many
-- dials are running as its target says, one or none, and of the links to a device at most one was
-- dialled by this side.
pub run-IsSingle :
    (norm_addr : Str → Str) (usable : Str → Bool) (me : Identity) (es : List Event) (a id : Str)
    → let w = run norm_addr usable es (start me) in
      (count a w.flying ≡ flag a w.manager.targets)
      × (count a w.flying ≤ 1)
      × (dialled (links_of id w.manager.links) ≤ 1)
unfolding lookup
run-IsSingle norm_addr usable me es a id =
    let m = run-IsMatched norm_addr usable es (start me) (unfold count new_manager in λ b. refl) in
    let one =
      run-AtMostOne norm_addr usable es (start me)
        (unfold dialled new_manager in λ i. omega arith) in
    (m a, ground (arith, m a), one id)
