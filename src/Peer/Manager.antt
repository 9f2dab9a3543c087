-- ===== src/Peer/Manager.antt =====
-- internal/peer/peer.go: the state of the manager, and the operations that it does under its
-- lock. Times are in nanoseconds; zero is the time that has always passed.
use void_bridge.Base.{
  ℕ, ◌+◌, ◌-◌, ◌*◌, ◌^◌, Bool, true, false, not, ◌&&◌, ◌||◌, List, [], ◌∷◌, ◌++◌, Option, none,
  some, Str, str_eq, nat_eq, ◌==◌, ltb, if◌then◌else◌, take, filterb, map, min,
}
use void_bridge.Base.Dict.{lookup, insert, delete}
use void_bridge.Base.Sort.{sort_by}
use void_bridge.Protocol.Message.{Identity, PeerInfo, str_lt}

pub record Known : Type 0 where
  pub name : Str
  pub kind : Str
  pub addrs : List (Str × ℕ)

pub record Target : Type 0 where
  pub fails : ℕ
  pub next : ℕ
  pub dialing : Bool
  pub manual : Bool
  pub last_id : Str

-- A link is known by a number, as Go knows it by its address.
pub record Link : Type 0 where
  pub number : ℕ
  pub dialer : Bool

pub record Manager : Type 0 where
  pub me : Identity
  pub manual : List Str
  pub known : List (Str × Known)
  pub targets : List (Str × Target)
  pub links : List (Str × List Link)

abbrev pub second : ℕ
second = 10 ^ 9

abbrev pub forget_after : ℕ
forget_after = 30 * 60 * second

unfoldable pub new_manager : Identity → Manager
new_manager me = record { me = me; manual = []; known = []; targets = []; links = [] }

-- ---- what is known of the devices

abbrev pub known_or_new : Option Known → Known
known_or_new none = record { name = []; kind = []; addrs = [] }
known_or_new (some k) = k

-- `m.knownLocked(id)`, and a change of what it returns.
unfoldable pub change_known : Str → (Known → Known) → List (Str × Known) → List (Str × Known)
change_known id f known = insert id (f (known_or_new (lookup id known))) known

abbrev pub target_or_new : Option Target → Target
target_or_new none = record { fails = 0; next = 0; dialing = false; manual = false; last_id = [] }
target_or_new (some t) = t

-- `m.target(addr)`, and a change of what it returns.
unfoldable pub change_target : Str → (Target → Target) → List (Str × Target) → List (Str × Target)
change_target addr f targets = insert addr (f (target_or_new (lookup addr targets))) targets

abbrev pub with_targets : (List (Str × Target) → List (Str × Target)) → Manager → Manager
with_targets f m = record m { targets = f m.targets }

abbrev pub mark_manual : Target → Target
mark_manual t = record t { manual = true }

abbrev pub mark_manual_now : Target → Target
mark_manual_now t = record t { manual = true; next = 0 }

unfoldable pub mark_all : (Target → Target) → List Str → List (Str × Target) → List (Str × Target)
mark_all f [] targets = targets
mark_all f (a ∷ addrs) targets = mark_all f addrs (change_target a f targets)

unfoldable pub clear_manual : List (Str × Target) → List (Str × Target)
clear_manual [] = []
clear_manual ((a, t) ∷ targets) = (a, record t { manual = false }) ∷ clear_manual targets

-- `SetManual`, with the addresses as `normAddr` writes them; it drops the empty ones.
unfoldable pub set_manual : (Str → Str) → List Str → Manager → Manager
unfolding mark_all clear_manual
set_manual norm_addr addrs m =
    let manual = filterb (λ a. not (a == [])) (map norm_addr addrs) in
    record m { manual = manual; targets = mark_all mark_manual_now manual (clear_manual m.targets) }

unfoldable pub add_targets : List Str → Manager → Manager
unfolding mark_all
add_targets addrs m = with_targets (mark_all mark_manual addrs) m

unfoldable pub see_all : (Str → Bool) → ℕ → List Str → List (Str × ℕ) → List (Str × ℕ)
see_all usable now [] seen = seen
see_all usable now (a ∷ addrs) seen =
    see_all usable now addrs (if usable a then insert a now seen else seen)

abbrev pub told : (Str → Bool) → ℕ → PeerInfo → Known → Known
told usable now p k = record {
  name = if p.name == [] then k.name else p.name;
  kind = if p.name == [] then k.kind else p.kind;
  addrs = see_all usable now (take 8 p.addrs) k.addrs;
}

abbrev pub learn_one : (Str → Bool) → ℕ → PeerInfo → Manager → Manager
learn_one usable now p m =
    if (p.id == m.me.id) || (p.id == [])
    then m
    else record m { known = change_known p.id (told usable now p) m.known }

unfoldable pub learn : (Str → Bool) → ℕ → List PeerInfo → Manager → Manager
unfolding change_known see_all
learn usable now [] m = m
learn usable now (p ∷ ps) m = learn usable now ps (learn_one usable now p m)

abbrev pub is_seen : Str → List (Str × ℕ) → Bool
is_seen addr seen = elim (lookup addr seen) [ none ↦ false | some t ↦ true ]

abbrev pub dial_now : Target → Target
dial_now t = record t { next = 0 }

unfoldable pub heard : ℕ → Str → Str → Str → Str → Manager → Manager
unfolding change_known change_target
heard now id name kind addr m = record m {
  known =
      change_known id (λ k. record { name = name; kind = kind; addrs = insert addr now k.addrs })
        m.known;
  targets =
      if is_seen addr (known_or_new (lookup id m.known)).addrs
      then m.targets
      else change_target addr dial_now m.targets;
}

-- The addresses that were seen lately enough to pass on.
unfoldable pub recent : ℕ → List (Str × ℕ) → List Str
recent now [] = []
recent now ((a, t) ∷ seen) =
    if ltb (now - t) forget_after then a ∷ recent now seen else recent now seen

abbrev pub info_of : ℕ → Str → Known → PeerInfo
info_of now id k = record {
  id = id;
  name = k.name;
  kind = k.kind;
  addrs = sort_by str_lt (recent now k.addrs);
}

abbrev pub is_empty {ℓ} : {A : Type ℓ} → List A → Bool
is_empty [] = true
is_empty (x ∷ xs) = false

unfoldable pub known_peers : ℕ → List (Str × Known) → List PeerInfo
unfolding recent
known_peers now [] = []
known_peers now ((id, k) ∷ known) =
    if is_empty (recent now k.addrs)
    then known_peers now known
    else info_of now id k ∷ known_peers now known

unfoldable pub peer_list : ℕ → List Str → Manager → List PeerInfo
unfolding known_peers
peer_list now my_addrs m =
    record { id = m.me.id; name = m.me.name; kind = m.me.kind; addrs = my_addrs }
    ∷ known_peers now m.known

-- ---- dialling

-- `len(m.links[id]) > 0`
unfoldable pub is_linked : Str → List (Str × List Link) → Bool
is_linked id links = elim (lookup id links) [
  | none ↦ false
  | some [] ↦ false
  | some (l ∷ ls) ↦ true
]

-- Not being dialled, nor waiting, nor known as an address of a device that is linked.
unfoldable pub is_ready : ℕ → List (Str × List Link) → Target → Bool
unfolding is_linked
is_ready now links t =
    not (t.dialing || ltb now t.next) && not (not (t.last_id == []) && is_linked t.last_id links)

abbrev pub Dials : Type 0
Dials = List (Str × Target) × List Str

abbrev pub start_dial : Target → Target
start_dial t = record t { dialing = true }

abbrev pub same : Target → Target
same t = t

unfoldable pub consider : ℕ → List (Str × List Link) → Str → Dials → Dials
unfolding change_target is_ready
consider now links addr (targets, out) =
    if is_ready now links (target_or_new (lookup addr targets))
    then (change_target addr start_dial targets, out ++ addr ∷ [])
    else (change_target addr same targets, out)

unfoldable pub consider_all : ℕ → List (Str × List Link) → List Str → Dials → Dials
unfolding consider
consider_all now links [] d = d
consider_all now links (a ∷ addrs) d = consider_all now links addrs (consider now links a d)

-- The addresses that are not yet forgotten.
unfoldable pub remembered : ℕ → List (Str × ℕ) → List (Str × ℕ)
remembered now [] = []
remembered now ((a, t) ∷ seen) =
    if ltb forget_after (now - t) then remembered now seen else (a, t) ∷ remembered now seen

unfoldable pub addresses : List (Str × ℕ) → List Str
addresses [] = []
addresses ((a, t) ∷ seen) = a ∷ addresses seen

-- Old addresses of devices without a link are forgotten; the others are worth trying.
unfoldable pub forget : ℕ → List (Str × List Link) → List (Str × Known) → List (Str × Known)
unfolding remembered
forget now links [] = []
forget now links ((id, k) ∷ known) =
    (id, if is_linked id links then k else record k { addrs = remembered now k.addrs })
    ∷ forget now links known

unfoldable pub known_addresses : ℕ → List (Str × List Link) → List (Str × Known) → List Str
unfolding remembered addresses
known_addresses now links [] = []
known_addresses now links ((id, k) ∷ known) =
    if is_linked id links
    then known_addresses now links known
    else addresses (remembered now k.addrs) ++ known_addresses now links known

unfoldable pub manual_addresses : List (Str × Target) → List Str
manual_addresses [] = []
manual_addresses ((a, t) ∷ targets) =
    if t.manual then a ∷ manual_addresses targets else manual_addresses targets

unfoldable pub dial_candidates : ℕ → Manager → Manager × List Str
unfolding consider_all forget known_addresses manual_addresses
dial_candidates now m =
    let first = consider_all now m.links (known_addresses now m.links m.known) (m.targets, []) in
    let all = consider_all now m.links (manual_addresses first.0) first in
    (record m { known = forget now m.links m.known; targets = all.0 }, all.1)

-- The locked part of `dial`, after a failure and after a success.
abbrev pub failed : ℕ → Target → Target
failed now t = record t {
  dialing = false;
  fails = t.fails + 1;
  next = now + second * 2 ^ min (t.fails + 1) 6;
}

abbrev pub reached : ℕ → Str → Target → Target
reached now id t = record t { dialing = false; fails = 0; last_id = id; next = now + 2 * second }

unfoldable pub dial_failed : ℕ → Str → Manager → Manager
unfolding change_target
dial_failed now addr m = with_targets (change_target addr (failed now)) m

unfoldable pub dial_reached : ℕ → Str → Str → Manager → Manager
unfolding change_target
dial_reached now addr id m = with_targets (change_target addr (reached now id)) m

-- ---- links

abbrev pub links_of : Str → List (Str × List Link) → List Link
links_of id links = elim (lookup id links) [ none ↦ [] | some ls ↦ ls ]

-- The first locked part of `addLink`; the result says whether the link is kept.
unfoldable pub open_link : ℕ → Link → Identity → List Str → Manager → Manager × Bool
unfolding change_known see_all is_linked
open_link now l peer peer_addrs m = if l.dialer && is_linked peer.id m.links then (m, false) else (
  record m {
    links = insert peer.id (l ∷ links_of peer.id m.links) m.links;
    known =
        change_known peer.id
          (λ k. record {
            name = peer.name;
            kind = peer.kind;
            addrs = see_all (λ a. true) now peer_addrs k.addrs;
          })
          m.known;
  },
  true,
)

-- The second locked part of `addLink`, after the link has ended.
unfoldable pub close_link : ℕ → Str → Manager → Manager
close_link number id m =
    let rest = filterb (λ (l : Link). not (l.number == number)) (links_of id m.links) in
    record m { links = if is_empty rest then delete id m.links else insert id rest m.links }
