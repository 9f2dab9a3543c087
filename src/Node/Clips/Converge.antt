-- ===== src/Node/Clips/Converge.antt =====
-- Nodes that have received the same clips hold the same clip, in whatever order they came.
use void_bridge.Base.{
  ℕ, ◌≡◌, refl, sym, ap, ◌∙◌, true, false, not, ◌||◌, List, [], ◌∷◌, none, some, Str, arith, ◌⊎◌,
  inl, inr, ◌↔◌, Bool-cases, if◌then◌else◌, bytes_eq_iff, str_eq,
}
use void_bridge.Base.Dict.{lookup-insert, lookup-delete, insert}
use void_bridge.Protocol.Message.{Message, newer}
use void_bridge.Protocol.Crypto.{Aead, Hashes}
use void_bridge.Protocol.Seal.{open_clip}
use void_bridge.Clipboard.{Content}
use void_bridge.Node.Clips.Newest.{In, newest, newest-same, not-newer-pick, picked-not-newer}
use void_bridge.Node.State.{Settings, Node, mark_seen, evict, noted, is_seen, content_from}
use void_bridge.Node.Clips.{Outside, is_clip, admit, handle_clip, received_content, decrypted}
use void_bridge.Node.Clips.Order.{
  pick, mark_seen-current, apply_clip-current, apply_clip-SameFrame, SameFrame,
}

is_seen-evict :
    (j id : Str) (n : Node) (o : List Str)
    → is_seen j (evict (noted id n) o) ≡ true
    → (is_seen j n ≡ true) ⊎ (j ≡ id)
unfolding evict
is_seen-evict j id n [] h = ground (arith, lookup-insert id j tt n.seen, bytes_eq_iff id j)
is_seen-evict j id n (x ∷ xs) h = ground (
  arith,
  lookup-insert id j tt n.seen,
  bytes_eq_iff id j,
  lookup-delete x j (insert id tt n.seen),
)

is_seen-mark_seen :
    (j id : Str) (n : Node) → is_seen j (mark_seen id n) ≡ true → (is_seen j n ≡ true) ⊎ (j ≡ id)
unfolding mark_seen
is_seen-mark_seen j id n h = elim (Bool-cases (is_seen id n)) [
  | inl old ↦ inl (rw (old, mark_seen) at h)
  | inr new ↦ is_seen-evict j id n (noted id n).seen_order (rw (new, mark_seen) at h)
]

mark_seen-frame :
    (id : Str) (n : Node)
    → ((mark_seen id n).content_key ≡ n.content_key) × ((mark_seen id n).settings ≡ n.settings)
unfolding mark_seen evict
mark_seen-frame id n = ground arith

admit-running :
    (m : Message) (n : Node)
    → n.settings.paused ≡ false
    → admit m n ≡ (mark_seen m.id n, not (is_seen m.id n || not (newer m n.current)))
unfolding admit
admit-running m n p = ground arith

-- A clip that this group made: it opens under the key, to a content that can be used.
pub record Genuine (cipher : Aead) (key : Str) (m : Message) : Type 0 where
  pub clip : is_clip m.type ≡ true
  pub plain : Str
  pub content : Content
  pub opens : open_clip cipher key m ≡ some plain
  pub usable : content_from m plain ≡ some content

-- One arrival: what the outside answers, the link and the message.
pub record Arrival : Type 0 where
  pub outside : Outside
  pub link : ℕ
  pub message : Message

abbrev pub messages : List Arrival → List Message
messages [] = []
messages (a ∷ as') = a.message ∷ messages as'

module _ (hs : Hashes) (cipher : Aead) where
  pub handle_all : List Arrival → Node → Node
  handle_all [] n = n
  handle_all (a ∷ as') n = handle_all as' (handle_clip hs cipher a.outside a.link a.message n).0

  -- The clips in play, and a node that has seen some of them.
  record Ready (key : Str) (pool : List Message) (n : Node) : Type 0 where
    same_key : n.content_key ≡ key
    running : n.settings.paused ≡ false
    seen_old : (m : Message) → In m pool → is_seen m.id n ≡ true → newer m n.current ≡ false

  module _ (key : Str) (pool : List Message)
      (genuine : (m : Message) → In m pool → Genuine cipher key m)
      (unique : (a b : Message) → In a pool → In b pool → a.id ≡ b.id → a ≡ b) where
    genuine-received :
        (m : Message) (n : Node)
        → In m pool
        → n.content_key ≡ key
        → (c : Content) × (received_content hs cipher m n ≡ some c)
    unfolding received_content
    genuine-received m n h e =
        let g = genuine m h in (g.content, rw (e, received_content, g.opens) g.usable)

    -- What the handler does with such a clip.
    handle_clip-genuine :
        (o : Outside) (l : ℕ) (m : Message) (n : Node)
        → In m pool
        → n.content_key ≡ key
        → n.settings.paused ≡ false
        → let n' = (handle_clip hs cipher o l m n).0 in
          SameFrame (mark_seen m.id n) n'
          × (n'.current
              ≡ (if is_seen m.id n || not (newer m n.current) then n.current else pick n.current m))
    unfolding handle_clip decrypted
    handle_clip-genuine o l m n h e p =
        let (c, got) = genuine-received m (mark_seen m.id n) h ((mark_seen-frame m.id n).0 ∙ e) in
        let g = genuine m h in
        let q = mark_seen-current m.id n in
        let a = apply_clip-current hs o l m c (mark_seen m.id n) in
        let f = apply_clip-SameFrame hs o l m c (mark_seen m.id n) in
        elim (Bool-cases (is_seen m.id n || not (newer m n.current))) [
          | inl old ↦
              rw (handle_clip, g.clip, admit-running m n p, old)
                (
                  record { key = refl; settings_kept = refl; seen_kept = refl; links_kept = refl },
                  q,
                )
          | inr new ↦ rw (handle_clip, g.clip, admit-running m n p, new, got) (f, a ∙ rw q refl)
        ]

    -- A node takes the clip exactly if it is newer than the current one, seen or not.
    handle_clip-pick :
        (o : Outside) (l : ℕ) (m : Message) (n : Node)
        → In m pool
        → Ready key pool n
        → (handle_clip hs cipher o l m n).0.current ≡ pick n.current m
    handle_clip-pick o l m n h r =
        let (_, e) = handle_clip-genuine o l m n h r.same_key r.running in
        ground (arith, e, r.seen_old m h)

    handle_clip-Ready :
        (o : Outside) (l : ℕ) (m : Message) (n : Node)
        → In m pool
        → Ready key pool n
        → Ready key pool (handle_clip hs cipher o l m n).0
    handle_clip-Ready o l m n h r =
        let (f, _) = handle_clip-genuine o l m n h r.same_key r.running in
        let p = handle_clip-pick o l m n h r in
        record {
          same_key = f.key ∙ (mark_seen-frame m.id n).0 ∙ r.same_key;
          running =
              ap (λ (s : Settings). s.paused) (f.settings_kept ∙ (mark_seen-frame m.id n).1)
              ∙ r.running;
          seen_old = λ x hx sx.
              elim (is_seen-mark_seen x.id m.id n (rw (f.seen_kept, is_seen) at sx)) [
                | inl before ↦ rw p (not-newer-pick x m n.current (r.seen_old x hx before))
                | inr same ↦ rw (p, unique x m hx h same) (picked-not-newer m n.current)
              ];
        }

    handle_all-newest :
        (as' : List Arrival) (n : Node)
        → ((m : Message) → In m (messages as') → In m pool)
        → Ready key pool n
        → (handle_all as' n).current ≡ newest n.current (messages as')
    unfolding handle_all newest
    handle_all-newest [] n sub r = refl
    handle_all-newest (a ∷ as') n sub r =
        let h = sub a.message (inl refl) in
        handle_all-newest as' (handle_clip hs cipher a.outside a.link a.message n).0
          (λ m k. sub m (inr k)) (handle_clip-Ready a.outside a.link a.message n h r)
        ∙ ap (λ c. newest c (messages as')) (handle_clip-pick a.outside a.link a.message n h r)

-- A node that runs and has no clip yet.
pub record Fresh (key : Str) (n : Node) : Type 0 where
  pub fresh_key : n.content_key ≡ key
  pub fresh_running : n.settings.paused ≡ false
  pub no_clip : n.current ≡ none
  pub none_seen : (id : Str) → is_seen id n ≡ false

Fresh-Ready :
    (hs : Hashes) (cipher : Aead) (key : Str) (pool : List Message) (n : Node)
    → Fresh key n
    → Ready hs cipher key pool n
Fresh-Ready hs cipher key pool n f = record {
  same_key = f.fresh_key;
  running = f.fresh_running;
  seen_old = λ m h s. cc (f.none_seen m.id);
}

-- Two running nodes of a group that start without a clip or a seen id and receive the same genuine
-- clips end on the same current clip, in whatever order, over whatever links and however often the
-- clips come, if an id names one clip. It is the newest of them by time and id.
pub handle_all-converge :
    (hs : Hashes) (cipher : Aead) (key : Str) (as' bs : List Arrival) (n n' : Node)
    → ((m : Message) → In m (messages as') → Genuine cipher key m)
    → ((a b : Message) → In a (messages as') → In b (messages as') → a.id ≡ b.id → a ≡ b)
    → ((m : Message) → In m (messages as') ↔ In m (messages bs))
    → Fresh key n
    → Fresh key n'
    → ((handle_all hs cipher as' n).current ≡ newest none (messages as'))
      × ((handle_all hs cipher bs n').current ≡ (handle_all hs cipher as' n).current)
handle_all-converge hs cipher key as' bs n n' genuine unique same f f' =
    let pool = messages as' in
    let one =
      handle_all-newest hs cipher key pool genuine unique as' n (λ m h. h)
        (Fresh-Ready hs cipher key pool n f)
      ∙ ap (λ c. newest c (messages as')) f.no_clip in
    let two =
      handle_all-newest hs cipher key pool genuine unique bs n' (λ m h. (same m).1 h)
        (Fresh-Ready hs cipher key pool n' f')
      ∙ ap (λ c. newest c (messages bs)) f'.no_clip in
    (one, two ∙ sym (newest-same (messages as') (messages bs) unique same) ∙ sym one)
