-- ===== src/Node/Clips.antt =====
-- internal/node/node.go: what a node does with a clip that arrives and with a local copy. The
-- handlers hold the lock twice, with the cipher's work between; each part is a function here, so
-- that other handlers can run in between.
pub mod Order
pub mod Newest
pub mod Converge
pub mod Race
use void_bridge.Base.{
  ℕ, Bool, true, false, not, ◌&&◌, ◌||◌, List, [], ◌∷◌, ◌++◌, Option, none, some, Str, ℤ, str_eq,
  nat_eq, ◌==◌, if◌then◌else◌, map, int_le, add_one64,
}
use void_bridge.Protocol.Message.{Message, MsgType, newer, blank}
use void_bridge.Protocol.Crypto.{Aead, Hashes}
use void_bridge.Protocol.Seal.{open_clip, seal_clip}
use void_bridge.Clipboard.{Content, content_hash, content_bytes}
use void_bridge.Node.History
use void_bridge.Node.State.{
  Node, Effect, sends, writes, is_seen, mark_seen, links_except, valid, content_from,
}

-- What the outside answers during one handler: the time, whether the clipboard takes a write,
-- and its counter after that.
pub record Outside : Type 0 where
  pub now : ℕ
  pub write_fails : Bool
  pub seq_after : Option ℕ

abbrev pub is_clip : MsgType → Bool
is_clip MsgType.clip = true
is_clip _ = false

-- The first locked part of `Handle`: is the clip new?
unfoldable pub admit : Message → Node → Node × Bool
admit m n =
    if n.settings.paused
    then (n, false)
    else if is_seen m.id n || not (newer m n.current)
    then (mark_seen m.id n, false)
    else (mark_seen m.id n, true)

abbrev pub send_all : List ℕ → Message → List Effect
send_all ls m = map (λ l. sends l m) ls

module _ (hs : Hashes) where
  -- The write to the clipboard, and its counter, which `poll` compares.
  unfoldable pub write_back : Outside → Content → Node → Node
  write_back o c n =
      if o.write_fails
      then n
      else elim o.seq_after [ none ↦ n | some s ↦ record n { last_seq = s } ]

  abbrev pub remember : Message → Content → Bool → Node → Node
  remember m c local n = elim n.history [
    | none ↦ n
    | some h ↦ record n { history = some (History.add hs h m c local) }
  ]

  abbrev pub with_current : ℕ → Message → Content → Node → Node
  with_current now m c n = record n {
    current = some m;
    last_hash = content_hash hs c;
    last_sync = now;
  }

  -- The second locked part of `Handle`, and what follows it: the clip has been decrypted.
  unfoldable pub apply_clip : Outside → ℕ → Message → Content → Node → Node × List Effect
  unfolding write_back
  apply_clip o l m c n =
      if newer m n.current
      then (let kept = with_current o.now m c n in
          let others = send_all (links_except (some l) n) m in
          if content_hash hs c == n.last_hash
          then (remember m c false kept, others)
          else (remember m c false (write_back o c kept), others ++ writes c ∷ []))
      else (n, [])

  module _ (cipher : Aead) where
    -- What the cipher's work gives between the two parts.
    unfoldable pub received_content : Message → Node → Option Content
    received_content m n = elim (open_clip cipher n.content_key m) [
      | none ↦ none
      | some plain ↦ content_from m plain
    ]

    -- `Handle` after the cipher's work; `none` is a clip that does not open or cannot be used.
    unfoldable pub decrypted : Outside → ℕ → Message → Node → Option Content → Node × List Effect
    decrypted o l m n none = (n, [])
    decrypted o l m n (some c) = apply_clip o l m c n

    -- `Handle` for a message that is no file message, with no other handler in between.
    unfoldable pub handle_clip : Outside → ℕ → Message → Node → Node × List Effect
    handle_clip o l m n =
        if is_clip m.type
        then (let (n', new) = admit m n in
            if new then decrypted o l m n' (received_content m n') else (n', []))
        else (n, [])

    -- The stamp of a new clip: never before or at the current one's, but for int64's wrap.
    unfoldable pub stamp : ℤ → Option Message → ℤ
    stamp now none = now
    stamp now (some cur) = if int_le now cur.time then add_one64 cur.time else now

    -- The first locked part of `LocalCopy`: the header of a new clip, if one is to be sent.
    unfoldable pub begin_copy : ℤ → Str → Content → Node → Node × Option Message
    unfolding stamp
    begin_copy now id c n =
        if valid c
        then if content_hash hs c == n.last_hash
          then (n, none)
          else (let hashed = record n { last_hash = content_hash hs c } in
              if n.settings.paused || (c.sensitive && n.settings.skip_sensitive)
              then (hashed, none)
              else (
                hashed,
                some (record (blank MsgType.clip) {
                  id = id;
                  origin = n.me.id;
                  origin_name = n.me.name;
                  time = stamp now n.current;
                  clip_type = c.type;
                  mime = c.mime;
                }),
              ))
        else (n, none)

    -- The second locked part of `LocalCopy`, with the sealed clip.
    unfoldable pub commit_copy : ℕ → Message → Content → Node → Node × List Effect
    commit_copy now m c n =
        let marked = mark_seen m.id (record n { current = some m }) in
        let targets = links_except none n in
        (
          remember m c true
              (elim targets [ [] ↦ marked | _ ∷ _ ↦ record marked { last_sync = now } ]),
          send_all targets m,
        )

    -- `LocalCopy`, with no other handler in between.
    unfoldable pub local_copy : ℕ → ℤ → Str → Str → Content → Node → Node × List Effect
    local_copy now now_ms id nonce c n =
        let (n', header) = begin_copy now_ms id c n in
        elim header [
          | none ↦ (n', [])
          | some m ↦
              commit_copy now (seal_clip cipher n'.content_key nonce m (content_bytes c)) c n'
        ]

    -- `poll`: the counter and the content as the clipboard gives them; `none` is an error, and
    -- for the content also a clipboard that holds nothing to sync.
    unfoldable pub poll : ℕ → ℤ → Str → Str → Option ℕ → Option Content → Node → Node × List Effect
    poll now now_ms id nonce none c n = (n, [])
    poll now now_ms id nonce (some seq) c n = if seq == n.last_seq then (n, []) else elim c [
      | none ↦ (record n { last_seq = seq }, [])
      | some c' ↦ local_copy now now_ms id nonce c' (record n { last_seq = seq })
    ]
