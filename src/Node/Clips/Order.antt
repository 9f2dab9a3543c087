-- ===== src/Node/Clips/Order.antt =====
-- A node's current clip moves forward only, through every handler that runs by itself.
use void_bridge.Base.{
  ℕ, ◌≡◌, ◌≢◌, refl, true, ◌^◌, ◌-◌, Option, none, some, Str, ℤ, pos, arith, ◌⊎◌, inl, inr,
  Bool-cases, Option-cases, int_lt, ◌∙◌, if◌then◌else◌, int_lt-add_one64, ◌∙◌, if◌then◌else◌,
  int_beq_iff, int_lt_irrefl,
}
use void_bridge.Protocol.Message.{Message, newer, newer_than}
use void_bridge.Protocol.Crypto.{Aead, Hashes}
use void_bridge.Protocol.Seal.{seal_clip}
use void_bridge.Clipboard.{Content, content_bytes}
use void_bridge.Node.State.{Node, mark_seen, evict}
use void_bridge.Node.Clips.{
  Outside, admit, apply_clip, handle_clip, decrypted, received_content, stamp, begin_copy,
  commit_copy, local_copy,
}

-- From one current clip to another: the same, or a newer one.
abbrev pub Advances : Option Message → Option Message → Type 0
Advances none after = Unit {0}
Advances (some a) after =
    (after ≡ some a) ⊎ ((m : Message) × (after ≡ some m) × (newer_than m a ≡ true))

pub Advances-refl : (c : Option Message) → Advances c c
Advances-refl none = tt
Advances-refl (some a) = inl refl

Advances-newer : (m : Message) (c : Option Message) → newer m c ≡ true → Advances c (some m)
unfolding newer
Advances-newer m none h = tt
Advances-newer m (some a) h = inr (m, refl, h)

pub mark_seen-current : (id : Str) (n : Node) → (mark_seen id n).current ≡ n.current
unfolding mark_seen evict
mark_seen-current id n = ground arith

newer_than_later : (m a : Message) → int_lt a.time m.time ≡ true → newer_than m a ≡ true
unfolding newer_than
newer_than_later m a h = ground (arith, int_beq_iff m.time a.time, int_lt_irrefl a.time)

-- The newer of a clip and the current one.
abbrev pub pick : Option Message → Message → Option Message
pick c m = if newer m c then some m else c

pub pick-Advances : (c : Option Message) (m : Message) → Advances c (pick c m)
pick-Advances c m = elim (Bool-cases (newer m c)) [
  | inl yes' ↦ rw yes' (Advances-newer m c yes')
  | inr no' ↦ rw no' (Advances-refl c)
]

-- What handlers leave alone.
pub record SameFrame (n n' : Node) : Type 0 where
  pub key : n'.content_key ≡ n.content_key
  pub settings_kept : n'.settings ≡ n.settings
  pub seen_kept : n'.seen ≡ n.seen
  pub links_kept : n'.links ≡ n.links

module _ (hs : Hashes) where
  pub apply_clip-current :
      (o : Outside) (l : ℕ) (m : Message) (c : Content) (n : Node)
      → (apply_clip hs o l m c n).0.current ≡ pick n.current m
  unfolding apply_clip
  apply_clip-current o l m c n = ground arith

  pub apply_clip-SameFrame :
      (o : Outside) (l : ℕ) (m : Message) (c : Content) (n : Node)
      → SameFrame n (apply_clip hs o l m c n).0
  unfolding apply_clip
  apply_clip-SameFrame o l m c n = ground arith

  module _ (cipher : Aead) where
    admit-current : (m : Message) (n : Node) → (admit m n).0.current ≡ n.current
    unfolding admit
    admit-current m n = ground (arith, mark_seen-current m.id n)

    -- The clip is taken as the current one, or the current one stays.
    handle_clip-current :
        (o : Outside) (l : ℕ) (m : Message) (n : Node)
        → ((handle_clip hs cipher o l m n).0.current ≡ n.current)
          ⊎ ((handle_clip hs cipher o l m n).0.current ≡ pick n.current m)
    unfolding handle_clip decrypted
    handle_clip-current o l m n = elim (Option-cases (received_content hs cipher m (admit m n).0)) [
      | inl bad ↦ rw (bad, handle_clip) (ground (arith, admit-current m n))
      | inr (c, good) ↦
          rw (good, handle_clip)
            (ground (arith, admit-current m n, apply_clip-current o l m c (admit m n).0))
    ]

    -- Whatever message arrives over whatever link, the clip that a node holds stays or gives way to
    -- a newer one, if no other handler runs in between.
    pub handle_clip-Advances :
        (o : Outside) (l : ℕ) (m : Message) (n : Node)
        → Advances n.current (handle_clip hs cipher o l m n).0.current
    handle_clip-Advances o l m n = elim (handle_clip-current o l m n) [
      | inl e ↦ rw e (Advances-refl n.current)
      | inr e ↦ rw e (pick-Advances n.current m)
    ]

    pub begin_copy-current :
        (now : ℤ) (id : Str) (c : Content) (n : Node)
        → (begin_copy hs cipher now id c n).0.current ≡ n.current
    unfolding begin_copy
    begin_copy-current now id c n = ground arith

    stamp-later :
        (now : ℤ) (cur : Message)
        → cur.time ≢ pos (2 ^ 63 - 1)
        → int_lt cur.time (stamp hs cipher now (some cur)) ≡ true
    unfolding stamp
    stamp-later now cur h = ground (arith, int_lt-add_one64 cur.time)

    pub commit_copy-current :
        (now : ℕ) (m : Message) (c : Content) (n : Node)
        → (commit_copy hs cipher now m c n).0.current ≡ some m
    unfolding commit_copy
    commit_copy-current now m c n =
        ground (arith, mark_seen-current m.id (record n { current = some m }))

    begin_copy-time :
        (now : ℤ) (id : Str) (c : Content) (n : Node) (m : Message)
        → (begin_copy hs cipher now id c n).1 ≡ some m
        → m.time ≡ stamp hs cipher now n.current
    unfolding begin_copy
    begin_copy-time now id c n m h = ground arith

    seal_clip-time :
        (key nonce p : Str) (m : Message) → (seal_clip cipher key nonce m p).time ≡ m.time
    unfolding seal_clip
    seal_clip-time key nonce p m = refl

    copied-Advances :
        (now : ℤ) (m : Message) (cur : Option Message)
        → ((a : Message) → cur ≡ some a → a.time ≢ pos (2 ^ 63 - 1))
        → m.time ≡ stamp hs cipher now cur
        → Advances cur (some m)
    copied-Advances now m none h e = tt
    copied-Advances now m (some a) h e =
        inr (m, refl, newer_than_later m a (rw e (stamp-later now a (h a refl))))

    -- A local copy that no other handler interrupts gives a newer clip, or no clip at all. The
    -- largest int64 is no time of the current clip.
    pub local_copy-Advances :
        (now : ℕ) (now_ms : ℤ) (id nonce : Str) (c : Content) (n : Node)
        → ((cur : Message) → n.current ≡ some cur → cur.time ≢ pos (2 ^ 63 - 1))
        → Advances n.current (local_copy hs cipher now now_ms id nonce c n).0.current
    unfolding local_copy
    local_copy-Advances now now_ms id nonce c n h =
        let b = begin_copy hs cipher now_ms id c n in
        elim (Option-cases (begin_copy hs cipher now_ms id c n).1) [
          | inl e ↦ rw (e, local_copy, begin_copy-current now_ms id c n) (Advances-refl n.current)
          | inr (m, e) ↦
              let m' = seal_clip cipher b.0.content_key nonce m (content_bytes c) in
              rw (e, local_copy, commit_copy-current now m' c b.0)
                (copied-Advances now_ms m' n.current h (
                  seal_clip-time b.0.content_key nonce (content_bytes c) m
                  ∙ begin_copy-time now_ms id c n m e))
        ]
