-- ===== src/Node/Clips/Newest.antt =====
-- The newest of a list of clips: what the nodes of a group agree on.
use void_bridge.Base.{
  ◌≡◌, refl, sym, ap, ◌∙◌, false, List, [], ◌∷◌, Option, none, some, ◌⊎◌, inl, inr, ◌↔◌, Bool-cases,
  arith,
}
use void_bridge.Protocol.Message.{Message, newer, newer_than}
use void_bridge.Protocol.Order.{newer_than_irrefl, newer_than_trans, newer_than_connected}
use void_bridge.Node.Clips.Order.{pick}

abbrev pub In : Message → List Message → Type 0
In m [] = ⊥
In m (x ∷ xs) = (m ≡ x) ⊎ In m xs

-- The specification: the newest of a list of clips and a first one.
unfoldable pub newest : Option Message → List Message → Option Message
newest c [] = c
newest c (m ∷ ms) = newest (pick c m) ms

pub not-newer-pick :
    (x m : Message) (c : Option Message) → newer x c ≡ false → newer x (pick c m) ≡ false
unfolding newer
not-newer-pick x m none h = cc
not-newer-pick x m (some a) h = elim (Bool-cases (newer_than m a)) [
  | inl e ↦
      rw e
        (elim (Bool-cases (newer_than x m)) [ inl f ↦ cc (newer_than_trans x m a f e) | inr f ↦ f ])
  | inr e ↦ rw e h
]

pub picked-not-newer : (m : Message) (c : Option Message) → newer m (pick c m) ≡ false
unfolding newer
picked-not-newer m none = newer_than_irrefl m
picked-not-newer m (some a) = ground (arith, newer_than_irrefl m)

newest_mono :
    (x : Message) (c : Option Message) (ms : List Message)
    → newer x c ≡ false
    → newer x (newest c ms) ≡ false
unfolding newest
newest_mono x c [] h = h
newest_mono x c (m ∷ ms) h = newest_mono x (pick c m) ms (not-newer-pick x m c h)

-- Nothing in the list is newer than the newest.
newest-upper :
    (x : Message) (c : Option Message) (ms : List Message) → In x ms → newer x (newest c ms) ≡ false
unfolding newest
newest-upper x c [] h = absurd h
newest-upper x c (m ∷ ms) (inl e) = newest_mono x (pick c m) ms (rw e (picked-not-newer m c))
newest-upper x c (m ∷ ms) (inr h) = newest-upper x (pick c m) ms h

abbrev Origin : Option Message → Option Message → List Message → Type 0
Origin r c ms = (r ≡ c) ⊎ ((x : Message) × (r ≡ some x) × In x ms)

newest-Origin : (c : Option Message) (ms : List Message) → Origin (newest c ms) c ms
unfolding newest
newest-Origin c [] = inl refl
newest-Origin c (m ∷ ms) = elim (newest-Origin (pick c m) ms) [
  | inl e ↦ elim (Bool-cases (newer m c)) [
    | inl f ↦ inr (m, e ∙ rw f refl, inl refl)
    | inr f ↦ inl (e ∙ rw f refl)
  ]
  | inr (x, e, h) ↦ inr (x, e, inr h)
]

-- Lists with the same clips have the same newest one, if an id names one clip.
pub newest-same :
    (ms ns : List Message)
    → ((a b : Message) → In a ms → In b ms → a.id ≡ b.id → a ≡ b)
    → ((m : Message) → In m ms ↔ In m ns)
    → newest none ms ≡ newest none ns
unfolding newer
newest-same ms ns unique same = elim (newest-Origin none ms) [
  | inl e ↦ elim (newest-Origin none ns) [
    | inl f ↦ e ∙ sym f
    | inr (y, f, k) ↦ cc (newest-upper y none ms ((same y).1 k), e)
  ]
  | inr (x, e, h) ↦ elim (newest-Origin none ns) [
    | inl f ↦ cc (newest-upper x none ns ((same x).0 h), f)
    | inr (y, f, k) ↦
        let yx = rw e at (newest-upper y none ms ((same y).1 k)) in
        let xy = rw f at (newest-upper x none ns ((same x).0 h)) in
        e ∙ ap some (unique x y h ((same y).1 k) (newer_than_connected x y xy yx).1) ∙ sym f
  ]
]
