-- ===== src/Tests/Peers.antt =====
-- The manager of direct links: runs, and the theorems at concrete managers.
use void_bridge.Base.{
  ◌≡◌, ◌≤◌, ◌*◌, ◌^◌, ◌+◌, bytes_eq, if◌then◌else◌, take, filterb, true, false, List, [], ◌∷◌, some,
  Str, codes, arith, refl, leb, min,
}
use void_bridge.Protocol.Message.{Identity}
use void_bridge.Base.Dict.{lookup, delete, insert}
use void_bridge.Peer.Manager.{
  is_linked, recent, heard, dial_reached, open_link, close_link, new_manager, Manager, Known,
  second, dial_candidates, dial_failed, learn, peer_list, links_of,
}
use void_bridge.Peer.Targets.{is_dialing, target_at, count, flag}
use void_bridge.Peer.Run.{Event, start, run, remove_one, is_in}
use void_bridge.Peer.Dial.{dial_candidates-dial_failed}
use void_bridge.Peer.Links.{run-IsSingle, dialled}
use void_bridge.Peer.Spread.{last_seen, tells, learn-last_seen, learn-peer_list}

abbrev desk : Identity
desk = record { id = codes "d1"; name = codes "desk"; kind = codes "linux" }

abbrev phone : Identity
phone = record { id = codes "p1"; name = codes "phone"; kind = codes "android" }

abbrev home : Str
home = codes "192.168.1.7:47829"

abbrev known_phone : Known
known_phone = record { name = phone.name; kind = phone.kind; addrs = (home, 100 * second) ∷ [] }

abbrev at_desk : Manager
at_desk = record {
  me = desk;
  manual = [];
  known = (phone.id, known_phone) ∷ [];
  targets =
      (home, record { fails = 3; next = 0; dialing = true; manual = false; last_id = [] }) ∷ [];
  links = [];
}

-- The fourth failure in a row waits for 16 seconds.
dial_candidates-dial_failed_example :
    let (after, picked) =
      dial_candidates (216 * second) (dial_failed (200 * second) home at_desk) in
    let wait = second * 2 ^ min ((target_at home at_desk.targets).fails + 1) 6 in
    (count home picked ≡ (if leb (200 * second + wait) (216 * second) then 1 else 0))
    × (is_dialing home after.targets ≡ leb (200 * second + wait) (216 * second))
    × ((2 * second ≤ wait) × (wait ≤ 64 * second))
unfolding lookup bytes_eq is_linked
dial_candidates-dial_failed_example =
    dial_candidates-dial_failed at_desk home phone.id known_phone (200 * second) (216 * second)
      (100 * second) refl refl (omega arith) refl refl

learn-peer_list_example :
    last_seen phone.id home
      (learn
        (λ a. true)
        300
        (peer_list (200 * second) [] at_desk)
        (start (record desk { id = codes "t1" })).manager).known
    ≡ some 300
unfolding lookup bytes_eq recent new_manager
learn-peer_list_example =
    learn-peer_list (λ a. true) (200 * second) 300 (100 * second) [] phone.id home known_phone
      at_desk (start (record desk { id = codes "t1" })).manager refl refl (omega arith)
      (omega arith) (ground arith) (ground arith) refl

abbrev events : List Event
events =
    Event.hears 5 phone.id phone.name phone.kind home
    ∷ Event.ticks 6
    ∷ Event.ticks 7
    ∷ Event.dial_reaches 8 home phone.id
    ∷ Event.links_up 9 (record { number = 1; dialer = true }) phone []
    ∷ Event.links_up 9 (record { number = 2; dialer = true }) phone []
    ∷ Event.ticks 10
    ∷ Event.links_down 1 phone.id
    ∷ Event.ticks (3 * second)
    ∷ []

run-IsSingle_example :
    let w = run (λ a. a) (λ a. true) events (start desk) in
    (count home w.flying ≡ flag home w.manager.targets)
    × (count home w.flying ≤ 1)
    × (dialled (links_of phone.id w.manager.links) ≤ 1)
run-IsSingle_example = run-IsSingle (λ a. a) (λ a. true) desk events home phone.id

run_dials_again : count home (run (λ a. a) (λ a. true) events (start desk)).flying ≡ 1
unfolding run new_manager heard dial_candidates dial_reached open_link close_link lookup bytes_eq
    take filterb delete remove_one count is_in insert
run_dials_again = refl

learn-last_seen_example :
    last_seen phone.id home (learn (λ a. true) 300 (peer_list 400 [] at_desk) at_desk).known ≡ (
      if tells (λ a. true) desk.id phone.id home (peer_list 400 [] at_desk)
      then some 300
      else last_seen phone.id home at_desk.known)
learn-last_seen_example =
    learn-last_seen (λ a. true) 300 phone.id home (peer_list 400 [] at_desk) at_desk
