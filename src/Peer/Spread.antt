-- ===== src/Peer/Spread.antt =====
-- internal/peer/peer.go: what devices learn from one another.
use void_bridge.Base.{
  ℕ, zero, suc, ◌+◌, ◌≡◌, ◌≢◌, ◌≤◌, ◌<◌, refl, ◌∙◌, Bool, true, false, not, ◌&&◌, ◌||◌, List, [],
  ◌∷◌, Option, some, Str, str_eq, ◌==◌, arith, if◌then◌else◌, bytes_eq_iff, bytes_eq, length, take,
  ap, Bool-cases, inl, inr,
}
use void_bridge.Base.Dict.{lookup, insert, lookup-insert}
use void_bridge.Base.Sort.{sort_by, place}
use void_bridge.Protocol.Message.{PeerInfo, str_lt}
use void_bridge.Peer.Manager.{
  Manager, Known, known_or_new, change_known, see_all, told, learn, learn_one, recent, known_peers,
  peer_list, forget_after,
}
use void_bridge.Peer.Run.{is_in}

-- When a device was last seen at an address.
abbrev pub last_seen : Str → Str → List (Str × Known) → Option ℕ
last_seen id a known = lookup a (known_or_new (lookup id known)).addrs

module _ (usable : Str → Bool) (me : Str) where
  -- Some entry names the device, not this one, and has the address, usable, among its first eight.
  unfoldable pub tells : Str → Str → List PeerInfo → Bool
  unfolding is_in
  tells id a [] = false
  tells id a (p ∷ ps) =
      ((p.id == id) && (not ((id == me) || (id == [])) && (usable a && is_in a (take 8 p.addrs))))
      || tells id a ps

lookup-see_all :
    (usable : Str → Bool) (now : ℕ) (a : Str) (addrs : List Str) (seen : List (Str × ℕ))
    → lookup a (see_all usable now addrs seen)
      ≡ (if usable a && is_in a addrs then some now else lookup a seen)
unfolding see_all is_in
lookup-see_all usable now a [] seen = ground arith
lookup-see_all usable now a (b ∷ addrs) seen = ground (
  arith,
  lookup-see_all usable now a addrs (if usable b then insert b now seen else seen),
  lookup-insert b a now seen,
  bytes_eq_iff b a,
)

last_seen-change_known :
    (i id a : Str) (f : Known → Known) (known : List (Str × Known))
    → last_seen id a (change_known i f known) ≡ (
        if i == id
        then lookup a (f (known_or_new (lookup id known))).addrs
        else last_seen id a known)
unfolding change_known
last_seen-change_known i id a f known = elim (Bool-cases (bytes_eq i id)) [
  | inl e ↦
      rw (lookup-insert i id (f (known_or_new (lookup i known))) known, e)
        (ap (λ c. lookup a (f (known_or_new (lookup c known))).addrs) ((bytes_eq_iff i id).0 e))
  | inr e ↦ rw (lookup-insert i id (f (known_or_new (lookup i known))) known, e) refl
]

learn_one-me :
    (usable : Str → Bool) (now : ℕ) (p : PeerInfo) (m : Manager)
    → (learn_one usable now p m).me ≡ m.me
learn_one-me usable now p m = ground arith

learn_one-last_seen :
    (usable : Str → Bool) (now : ℕ) (id a : Str) (p : PeerInfo) (m : Manager)
    → last_seen id a (learn_one usable now p m).known
      ≡ (if tells usable m.me.id id a (p ∷ []) then some now else last_seen id a m.known)
unfolding tells
learn_one-last_seen usable now id a p m = ground (
  arith,
  last_seen-change_known p.id id a (told usable now p) m.known,
  lookup-see_all usable now a (take 8 p.addrs) (known_or_new (lookup id m.known)).addrs,
  bytes_eq_iff p.id id,
  bytes_eq_iff p.id m.me.id,
  bytes_eq_iff id m.me.id,
  bytes_eq_iff p.id [],
  bytes_eq_iff id [],
)

-- Exactly when an address of a device is recorded from what another device tells: an entry names
-- the device, which is not this one and not without an id, and has the address, which is usable,
-- among its first eight. Then it counts as seen now; every
-- other time of sighting stays. Of names and kinds, which are taken over too, nothing is said.
pub learn-last_seen :
    (usable : Str → Bool) (now : ℕ) (id a : Str) (ps : List PeerInfo) (m : Manager)
    → last_seen id a (learn usable now ps m).known
      ≡ (if tells usable m.me.id id a ps then some now else last_seen id a m.known)
unfolding learn tells
learn-last_seen usable now id a [] m = refl
learn-last_seen usable now id a (p ∷ ps) m = ground (
  arith,
  learn-last_seen usable now id a ps (learn_one usable now p m),
  learn_one-me usable now p m,
  learn_one-last_seen usable now id a p m,
)

is_in-place :
    (less : Str → Str → Bool) (a x : Str) (xs : List Str)
    → is_in a (place less x xs) ≡ ((x == a) || is_in a xs)
unfolding place is_in
is_in-place less a x [] = ground arith
is_in-place less a x (y ∷ ys) = ground (arith, is_in-place less a x ys)

is_in-sort_by :
    (less : Str → Str → Bool) (a : Str) (xs : List Str) → is_in a (sort_by less xs) ≡ is_in a xs
unfolding sort_by is_in
is_in-sort_by less a [] = refl
is_in-sort_by less a (x ∷ xs) =
    ground (arith, is_in-place less a x (sort_by less xs), is_in-sort_by less a xs)

length-place :
    (less : Str → Str → Bool) (x : Str) (xs : List Str) → length (place less x xs) ≡ length xs + 1
unfolding place
length-place less x [] = omega arith
length-place less x (y ∷ ys) = ground (arith, length-place less x ys)

length-sort_by : (less : Str → Str → Bool) (xs : List Str) → length (sort_by less xs) ≡ length xs
unfolding sort_by
length-sort_by less [] = refl
length-sort_by less (x ∷ xs) =
    omega (arith, length-place less x (sort_by less xs), length-sort_by less xs)

take-all : (n : ℕ) (xs : List Str) → length xs ≤ n → take n xs ≡ xs
unfolding take
take-all zero [] h = refl
take-all zero (x ∷ xs) h = absurd (omega arith)
take-all (suc n) [] h = refl
take-all (suc n) (x ∷ xs) h = ap (◌∷◌ x) (take-all n xs (omega arith))

is_in-recent :
    (now seen : ℕ) (a : Str) (addrs : List (Str × ℕ))
    → lookup a addrs ≡ some seen
    → now < seen + forget_after
    → is_in a (recent now addrs) ≡ true
unfolding lookup recent is_in
is_in-recent now seen a [] h le = cc
is_in-recent now seen a ((b, t) ∷ addrs) h le = ground (arith, is_in-recent now seen a addrs)

is_in-take_sorted :
    (now seen : ℕ) (a : Str) (k : Known)
    → lookup a k.addrs ≡ some seen
    → now < seen + forget_after
    → length (recent now k.addrs) ≤ 8
    → is_in a (take 8 (sort_by str_lt (recent now k.addrs))) ≡ true
is_in-take_sorted now seen a k h le few =
    rw
      (take-all 8 (sort_by str_lt (recent now k.addrs))
        (omega (arith, length-sort_by str_lt (recent now k.addrs))))
      (is_in-sort_by str_lt a (recent now k.addrs) ∙ is_in-recent now seen a k.addrs h le)

module _ (usable : Str → Bool) (me : Str) where
  tells-known_peers :
      (now seen : ℕ) (id a : Str) (k : Known) (known : List (Str × Known))
      → lookup id known ≡ some k
      → lookup a k.addrs ≡ some seen
      → now < seen + forget_after
      → length (recent now k.addrs) ≤ 8
      → id ≢ me
      → id ≢ []
      → usable a ≡ true
      → tells usable me id a (known_peers now known) ≡ true
  unfolding lookup known_peers tells
  tells-known_peers now seen id a k [] h g le few other named u = cc
  tells-known_peers now seen id a k ((i, j) ∷ known) h g le few other named u = ground (
    arith,
    tells-known_peers now seen id a k known,
    is_in-take_sorted now seen a k g le few,
    is_in-recent now seen a k.addrs g le,
    bytes_eq_iff i id,
    bytes_eq_iff id me,
    bytes_eq_iff id [],
  )

-- A device tells another what it knows: an address of a device at which that device was seen in
-- the last half hour, one of at most eight such, and which the other may use, counts for the other
-- as seen at the moment it learns it, unless the device is the other itself. How long the other
-- keeps it is not part of this.
pub learn-peer_list :
    (usable : Str → Bool) (now later seen : ℕ) (my_addrs : List Str) (id a : Str) (k : Known)
    (teller listener : Manager)
    → lookup id teller.known ≡ some k
    → lookup a k.addrs ≡ some seen
    → now < seen + forget_after
    → length (recent now k.addrs) ≤ 8
    → id ≢ listener.me.id
    → id ≢ []
    → usable a ≡ true
    → last_seen id a (learn usable later (peer_list now my_addrs teller) listener).known
      ≡ some later
unfolding peer_list tells
learn-peer_list usable now later seen my_addrs id a k teller listener h g le few other named u =
    ground (
      arith,
      learn-last_seen usable later id a (peer_list now my_addrs teller) listener,
      tells-known_peers usable listener.me.id now seen id a k teller.known h g le few other named u,
    )
