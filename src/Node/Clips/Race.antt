-- ===== src/Node/Clips/Race.antt =====
-- Echoes of a node's own writes, and a clip that arrives while a local copy is being sealed.
use mathlib.Core.List.{append-nil}
use void_bridge.Base.{
  ℕ, ◌≡◌, refl, ◌∙◌, true, [], ◌∷◌, none, some, Str, ℤ, arith, inl, inr, sym, bytes_eq_iff, ◌++◌,
  if◌then◌else◌, ◌==◌, str_eq, nat_eq, not, filterb, map, List, All, Bool-cases, ◌+◌,
}
use void_bridge.Protocol.Message.{Message, newer, newer_than}
use void_bridge.Protocol.Order.{newer_than_irrefl, newer_than_trans}
use void_bridge.Protocol.Crypto.{Aead, Hashes}
use void_bridge.Protocol.Seal.{seal_clip}
use void_bridge.Clipboard.{Content, content_hash, content_bytes}
use void_bridge.Node.State.{Node, LinkInfo, Effect, sends, writes, links_except}
use void_bridge.Node.Clips.{Outside, apply_clip, begin_copy, commit_copy, local_copy, send_all}
use void_bridge.Node.Clips.Order.{
  Advances, apply_clip-current, commit_copy-current, begin_copy-current,
}

older-not-Advances : (x s : Message) → newer_than x s ≡ true → ¬ Advances (some x) (some s)
older-not-Advances x s h (inl e) = ground (arith, newer_than_irrefl x)
older-not-Advances x s h (inr (m, e, p)) =
    ground (arith, newer_than_irrefl x, newer_than_trans x m x)

-- How often a link is sent something, and how often the clipboard is written.
unfoldable pub sends_to : ℕ → List Effect → ℕ
sends_to k [] = 0
sends_to k (sends j m ∷ es) = (if j == k then 1 else 0) + sends_to k es
sends_to k (writes c ∷ es) = sends_to k es

unfoldable pub writes_in : List Effect → ℕ
writes_in [] = 0
writes_in (sends j m ∷ es) = writes_in es
writes_in (writes c ∷ es) = 1 + writes_in es

-- What is sent is the message, and what is written is the content.
abbrev pub IsOf : Message → Content → Effect → Type 0
IsOf x c (sends j m) = m ≡ x
IsOf x c (writes d) = d ≡ c

-- How many links have the number.
unfoldable pub links_of : ℕ → List (ℕ × LinkInfo) → ℕ
links_of k [] = 0
links_of k ((j, i) ∷ ls) = (if j == k then 1 else 0) + links_of k ls

relayed : ℕ → Message → List (ℕ × LinkInfo) → List Effect
relayed l x ls = send_all (filterb (λ j. not (j == l)) (map (λ i. i.0) ls)) x

relayed_effects :
    (l k : ℕ) (x : Message) (c : Content) (ls : List (ℕ × LinkInfo)) (es : List Effect)
    → All (IsOf x c) es
    → All (IsOf x c) (relayed l x ls ++ es)
      × (sends_to k (relayed l x ls ++ es) ≡ (if k == l then 0 else links_of k ls) + sends_to k es)
      × (writes_in (relayed l x ls ++ es) ≡ writes_in es)
unfolding relayed sends_to writes_in links_of filterb
relayed_effects l k x c [] es a = (a, ground arith, refl)
relayed_effects l k x c ((j, i) ∷ ls) es a = elim (Bool-cases (j == l)) [
  | inl e ↦ let r = relayed_effects l k x c ls es a in rw e (r.0, ground (arith, r.1), r.2)
  | inr e ↦ let r = relayed_effects l k x c ls es a in rw e ((refl, r.0), ground (arith, r.1), r.2)
]

module _ (hs : Hashes) (cipher : Aead) where
  apply_clip-effects :
      (o : Outside) (l : ℕ) (x : Message) (c : Content) (n : Node) (k : ℕ)
      → newer x n.current ≡ true
      → let done = (apply_clip hs o l x c n).1 in
        All (IsOf x c) done
        × (sends_to k done ≡ (if k == l then 0 else links_of k n.links))
        × (writes_in done ≡ (if content_hash hs c == n.last_hash then 0 else 1))
  unfolding apply_clip links_except relayed sends_to writes_in
  apply_clip-effects o l x c n k h = elim (Bool-cases (content_hash hs c == n.last_hash)) [
    | inl e ↦
        let r = relayed_effects l k x c n.links [] tt in
        let flat = append-nil (relayed l x n.links) in
        rw (h, e, sym flat) (r.0, omega (arith, r.1), r.2)
    | inr e ↦
        let r = relayed_effects l k x c n.links (writes c ∷ []) (refl, tt) in
        rw (h, e) (r.0, omega (arith, r.1), r.2)
  ]

  apply_clip-hash :
      (o : Outside) (l : ℕ) (x : Message) (c : Content) (n : Node)
      → newer x n.current ≡ true
      → (apply_clip hs o l x c n).0.last_hash ≡ content_hash hs c
  unfolding apply_clip
  apply_clip-hash o l x c n h = ground arith

  local_copy_same :
      (now : ℕ) (now_ms : ℤ) (id nonce : Str) (c : Content) (n : Node)
      → content_hash hs c ≡ n.last_hash
      → local_copy hs cipher now now_ms id nonce c n ≡ (n, [])
  unfolding local_copy begin_copy
  local_copy_same now now_ms id nonce c n h =
      ground (arith, bytes_eq_iff (content_hash hs c) n.last_hash)

  -- A clip newer than the current one is sent to every link but the one that it came over, to each
  -- as often as the node has a link of its number, and its content is written to the clipboard
  -- once if it is new there and else not. Nothing else is sent or written. When the clipboard then
  -- reports that content as a local copy, the node changes nothing and sends nothing.
  pub apply_clip-local_copy :
      (o : Outside) (l : ℕ) (x : Message) (c c' : Content) (n : Node)
      → (now : ℕ) (now_ms : ℤ) (id nonce : Str) (k : ℕ) → newer x n.current ≡ true
      → content_hash hs c' ≡ content_hash hs c
      → let (n', done) = apply_clip hs o l x c n in
        All (IsOf x c) done
        × (sends_to k done ≡ (if k == l then 0 else links_of k n.links))
        × (writes_in done ≡ (if content_hash hs c == n.last_hash then 0 else 1))
        × (local_copy hs cipher now now_ms id nonce c' n' ≡ (n', []))
  apply_clip-local_copy o l x c c' n now now_ms id nonce k h e = (
    (apply_clip-effects o l x c n k h).0,
    (apply_clip-effects o l x c n k h).1,
    (apply_clip-effects o l x c n k h).2,
    local_copy_same now now_ms id nonce c' (apply_clip hs o l x c n).0
        (e ∙ sym (apply_clip-hash o l x c n h)),
  )

  newer_than-seal_clip :
      (x m : Message) (key nonce p : Str)
      → newer_than x (seal_clip cipher key nonce m p) ≡ newer_than x m
  unfolding newer_than seal_clip
  newer_than-seal_clip x m key nonce p = refl

  commit_copy-sends :
      (now : ℕ) (m : Message) (c : Content) (n : Node)
      → (commit_copy hs cipher now m c n).1 ≡ send_all (links_except none n) m
  unfolding commit_copy
  commit_copy-sends now m c n = refl

  -- While a local copy is being sealed, a clip `x` that is newer than the copy becomes current.
  -- The copy then replaces it all the same, though the order of clips says that `x` is newer: the
  -- current clip goes backwards, and the older one is sent to every link.
  pub commit_copy_goes_back :
      (o : Outside) (l : ℕ) (x m : Message) (c cx : Content) (n : Node)
      → (now : ℕ) (now_ms : ℤ) (id nonce : Str) → (begin_copy hs cipher now_ms id c n).1 ≡ some m
      → newer x n.current ≡ true
      → newer_than x m ≡ true
      → let n₁ = (begin_copy hs cipher now_ms id c n).0 in
        let n₂ = (apply_clip hs o l x cx n₁).0 in
        let sealed = seal_clip cipher n₁.content_key nonce m (content_bytes c) in
        let (n₃, done) = commit_copy hs cipher now sealed c n₂ in
        (n₂.current ≡ some x)
        × (n₃.current ≡ some sealed)
        × (newer_than x sealed ≡ true)
        × (¬ Advances n₂.current n₃.current)
        × (done ≡ send_all (links_except none n₂) sealed)
  commit_copy_goes_back o l x m c cx n now now_ms id nonce b h k =
      let n₁ = (begin_copy hs cipher now_ms id c n).0 in
      let n₂ = (apply_clip hs o l x cx n₁).0 in
      let s = seal_clip cipher n₁.content_key nonce m (content_bytes c) in
      let taken : n₂.current ≡ some x =
        apply_clip-current hs o l x cx n₁
        ∙ rw (begin_copy-current hs cipher now_ms id c n, h) refl in
      let left = commit_copy-current hs cipher now s c n₂ in
      let later = newer_than-seal_clip x m n₁.content_key nonce (content_bytes c) ∙ k in
      (
        taken,
        left,
        later,
        rw (taken, left) (older-not-Advances x s later),
        commit_copy-sends now s c n₂,
      )
