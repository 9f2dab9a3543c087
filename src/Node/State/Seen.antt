-- ===== src/Node/State/Seen.antt =====
-- The clip ids that a node has seen: a bounded window, the same in the map and in the list.
use void_bridge.Base.{
  ◌≤◌, ◌≡◌, refl, Bool, true, false, List, [], ◌∷◌, ◌++◌, Option, none, some, Str, arith, ltb,
  length, inl, inr, str_eq, bytes_eq, bytes_eq_iff, Bool-cases, length-append, if◌then◌else◌, ap,
  ◌∙◌, ◌-◌, drop,
}
use void_bridge.Base.Dict.{insert, lookup-insert, lookup-delete}
use void_bridge.Node.State.{Node, is_seen, noted, evict, mark_seen, seen_limit}

-- Is the text among the list's?
abbrev pub among : Str → List Str → Bool
among id [] = false
among id (x ∷ xs) = if bytes_eq x id then true else among id xs

abbrev pub Distinct : List Str → Type 0
Distinct [] = Unit {0}
Distinct (x ∷ xs) = (among x xs ≡ false) × Distinct xs

abbrev holds : Option (Unit {0}) → Bool
holds none = false
holds (some _) = true

pub record IsTracked (n : Node) : Type 0 where
  pub bounded : length n.seen_order ≤ seen_limit
  pub distinct : Distinct n.seen_order
  pub agree : (id : Str) → is_seen id n ≡ among id n.seen_order

among-append_one :
    (id x : Str) (xs : List Str)
    → among id (xs ++ x ∷ []) ≡ (if among id xs then true else bytes_eq x id)
among-append_one id x [] = ground arith
among-append_one id x (y ∷ xs) = ground (arith, among-append_one id x xs)

Distinct-append_one :
    (x : Str) (xs : List Str) → among x xs ≡ false → Distinct xs → Distinct (xs ++ x ∷ [])
Distinct-append_one x [] h d = (refl, tt)
Distinct-append_one x (y ∷ xs) h d = ground (
  arith,
  among-append_one y x xs,
  bytes_eq_iff x y,
  bytes_eq_iff y x,
  Distinct-append_one x xs (ground arith) d.1,
)

-- The steps on a node whose list of ids is `o`.
module _ (id : Str) (n : Node) (o : List Str) where
  with_order : Node
  with_order = record n { seen_order = o }

  noted-agree :
      ((j : Str) → is_seen j with_order ≡ among j o)
      → (j : Str) → is_seen j (noted id with_order) ≡ among j (o ++ id ∷ [])
  unfolding with_order
  noted-agree agree j =
      ground (arith, agree j, among-append_one j id o, lookup-insert id j tt n.seen)

  noted-Distinct : is_seen id with_order ≡ false → IsTracked with_order → Distinct (o ++ id ∷ [])
  unfolding with_order
  noted-Distinct new v = Distinct-append_one id o (ground (arith, v.agree id)) v.distinct

-- Dropping the head of a list without repetitions.
among-tail :
    (x j : Str) (xs : List Str)
    → among x xs ≡ false
    → among j xs ≡ (if bytes_eq x j then false else among j (x ∷ xs))
among-tail x j xs h = ground (arith, bytes_eq_iff x j)

evict-IsTracked :
    (id : Str) (n : Node) (o : List Str)
    → IsTracked (record n { seen_order = o })
    → is_seen id (record n { seen_order = o }) ≡ false
    → IsTracked (evict (noted id (record n { seen_order = o })) (o ++ id ∷ []))
unfolding evict with_order
evict-IsTracked id n [] v new = record {
  bounded = omega arith;
  distinct = (refl, tt);
  agree = noted-agree id n [] v.agree;
}
evict-IsTracked id n (x ∷ xs) v new =
    let d = noted-Distinct id n (x ∷ xs) new v in
    elim (Bool-cases (ltb seen_limit (length (x ∷ (xs ++ id ∷ []))))) [
      | inl full ↦
          rw (full, evict)
            (record {
              bounded = ground (arith, length-append xs (id ∷ []), v.bounded);
              distinct = d.1;
              agree = λ j. ground (
                arith,
                noted-agree id n (x ∷ xs) v.agree j,
                among-tail x j (xs ++ id ∷ []) d.0,
                lookup-delete x j (insert id tt n.seen),
              );
            })
      | inr room ↦
          rw (room, evict)
            (record {
              bounded = ground arith;
              distinct = d;
              agree = noted-agree id n (x ∷ xs) v.agree;
            })
    ]

abbrev window : List Str → List Str
window xs = drop (length xs - seen_limit) xs

evict-order :
    (id : Str) (n : Node) (o : List Str)
    → length o ≤ seen_limit
    → (evict (noted id (record n { seen_order = o })) (o ++ id ∷ [])).seen_order
      ≡ window (o ++ id ∷ [])
unfolding evict drop
evict-order id n [] h = refl
evict-order id n (x ∷ xs) h = elim (Bool-cases (ltb seen_limit (length (x ∷ (xs ++ id ∷ []))))) [
  | inl full ↦
      let e : length (x ∷ (xs ++ id ∷ [])) - seen_limit ≡ 1 =
        ground (arith, length-append xs (id ∷ [])) in
      rw (full, evict, e, drop)
  | inr room ↦
      let e : length (x ∷ (xs ++ id ∷ [])) - seen_limit ≡ 0 = ground arith in
      rw (room, evict, e, drop)
]

among-window :
    (id : Str) (o : List Str) → length o ≤ seen_limit → among id (window (o ++ id ∷ [])) ≡ true
unfolding drop
among-window id [] h = ground (arith, bytes_eq_iff id id)
among-window id (x ∷ xs) h = elim (Bool-cases (ltb seen_limit (length (x ∷ (xs ++ id ∷ []))))) [
  | inl full ↦
      let e : length (x ∷ (xs ++ id ∷ [])) - seen_limit ≡ 1 =
        ground (arith, length-append xs (id ∷ [])) in
      rw (e, drop) (ground (arith, among-append_one id id xs, bytes_eq_iff id id))
  | inr room ↦
      let e : length (x ∷ (xs ++ id ∷ [])) - seen_limit ≡ 0 = ground arith in
      rw (e, drop) (ground (arith, among-append_one id id xs, bytes_eq_iff id id))
]

-- On a node where they agree, without repetitions and within the limit, marking an id keeps the
-- map and the list of ids in agreement, without repetitions and within the limit. The id is then
-- seen; a new one is put at the end, and the list keeps its last 4096.
pub mark_seen-IsTracked :
    (id : Str) (n : Node)
    → IsTracked n
    → IsTracked (mark_seen id n)
      × (is_seen id (mark_seen id n) ≡ true)
      × ((mark_seen id n).seen_order
          ≡ (if is_seen id n then n.seen_order else window (n.seen_order ++ id ∷ [])))
unfolding mark_seen
mark_seen-IsTracked id n v = elim (Bool-cases (is_seen id n)) [
  | inl old ↦ rw (old, mark_seen) (v, old, refl)
  | inr new ↦
      let v' = evict-IsTracked id n n.seen_order v new in
      let o = evict-order id n n.seen_order v.bounded in
      rw (new, mark_seen)
        (v', v'.agree id ∙ ap (among id) o ∙ among-window id n.seen_order v.bounded, o)
]
