-- ===== src/Node/Files/Commit.antt =====
-- When a node stores a file that arrived: the bytes that its writer took, and their hash.
use void_bridge.Base.{
  signed64, ℕ, ◌%◌, ◌^◌, ◌≡◌, ◌≢◌, refl, ap, ◌∙◌, true, List, [], ◌∷◌, ◌++◌, Option, none, some,
  Str, str_eq, int_eq, ◌==◌, if◌then◌else◌, length, arith, ◌⊎◌, inl, inr, bytes_eq_iff, int_beq_iff,
  Bool-cases, Option-cases, length-append,
}
use void_bridge.Base.Dict.{lookup, lookup-insert, lookup-delete}
use void_bridge.Protocol.Message.{Message, MsgType}
use void_bridge.Protocol.Crypto.{Aead, Hashes}
use void_bridge.Protocol.Seal.{open_file}
use void_bridge.Node.Files.{
  MetaCodec, Incoming, Receiver, FileEffect, begins, writes, commits, aborts, FileOutside, post_ack,
  fail, begun, on_start, on_chunk, on_end, on_plain, is_ack, handle_file, counted, is_whole,
}

-- The bytes in the open writer of a transfer after an effect, and after some.
abbrev pub wrote : Str → FileEffect → Option Str → Option Str
wrote id (begins k m s) w = if k == id then some [] else w
wrote id (writes k b) w =
    if k == id then elim w as (λ _. Option Str) [ none ↦ none | some a ↦ some (a ++ b) ] else w
wrote id (commits k) w = if k == id then none else w
wrote id (aborts k) w = if k == id then none else w
wrote id _ w = w

abbrev pub contents : Str → List FileEffect → Option Str → Option Str
contents id [] w = w
contents id (e ∷ es) w = contents id es (wrote id e w)

pub contents-append :
    (id : Str) (es es' : List FileEffect) (w : Option Str)
    → contents id (es ++ es') w ≡ contents id es' (contents id es w)
contents-append id [] es' w = refl
contents-append id (e ∷ es) es' w = contents-append id es es' (wrote id e w)

-- What the node knows of its transfers agrees with their writers.
abbrev pub Tracks : (Str → Option Str) → Receiver → Type 0
Tracks w r =
    (id : Str) (i : Incoming)
    → lookup id r.incoming ≡ some i
    → (w id ≡ some i.summed) × (i.got ≡ length i.summed % 2 ^ 64)

-- A handler keeps the agreement.
abbrev pub Keeps : (Str → Option Str) → Receiver × List FileEffect → Type 0
Keeps w x = Tracks (λ id. contents id x.1 (w id)) x.0

fail-Keeps :
    (l : ℕ) (m : Message) (i : Incoming) (reason : Str) (r : Receiver) (w : Str → Option Str)
    → Tracks w r
    → Keeps w (fail l m i reason r)
unfolding fail
fail-Keeps l m i reason r w v id i' e =
    ground (arith, lookup-delete m.id id r.incoming, bytes_eq_iff m.id id, v id i')

on_start-Keeps :
    (j : MetaCodec) (o : FileOutside) (l : ℕ) (m : Message) (plain : Str) (r : Receiver)
    → (w : Str → Option Str) → Tracks w r
    → Keeps w (on_start j o l m plain r)
unfolding on_start
on_start-Keeps j o l m plain r w v id i e = elim (Option-cases (j.parse plain)) [
  | inl bad ↦ ground (arith, v id i)
  | inr (meta, good) ↦
      ground
        (arith, v id i, lookup-insert m.id id (begun o l m meta) r.incoming, bytes_eq_iff m.id id)
]

on_chunk-Keeps :
    (o : FileOutside) (l : ℕ) (m : Message) (plain : Str) (t : Option Incoming) (r : Receiver)
    → (w : Str → Option Str) → lookup m.id r.incoming ≡ t
    → Tracks w r
    → Keeps w (on_chunk o l m plain t r)
unfolding on_chunk fail
on_chunk-Keeps o l m plain none r w h v id i' e = v id i' e
on_chunk-Keeps o l m plain (some i) r w h v id i' e = ground (
  arith,
  v id i',
  v m.id i,
  lookup-delete m.id id r.incoming,
  lookup-insert m.id id (record (counted o plain i) { summed = i.summed ++ plain }) r.incoming,
  length-append i.summed plain,
  bytes_eq_iff m.id id,
)

on_end-Keeps :
    (hs : Hashes) (o : FileOutside) (l : ℕ) (m : Message) (plain : Str) (t : Option Incoming)
    → (r : Receiver) (w : Str → Option Str) → Tracks w r
    → Keeps w (on_end hs o l m plain t r)
unfolding on_end
on_end-Keeps hs o l m plain none r w v id i' e = v id i' e
on_end-Keeps hs o l m plain (some i) r w v id i' e =
    ground (arith, v id i', lookup-delete m.id id r.incoming, bytes_eq_iff m.id id)

-- What is known where the writer of a transfer is told to store the file.
pub record IsStored (hs : Hashes) (cipher : Aead) (m : Message) (r : Receiver)
    (w : Str → Option Str) (k : Str) : Type 0 where
  pub transfer : Incoming
  pub its_id : k ≡ m.id
  pub known : lookup m.id r.incoming ≡ some transfer
  pub written : w m.id ≡ some transfer.summed
  pub its_size : signed64 (length transfer.summed % 2 ^ 64) ≡ transfer.meta.size
  pub its_seq : m.seq ≡ signed64 transfer.next
  pub its_type : m.type ≡ MsgType.file_end
  pub its_hash : open_file cipher r.content_key m ≡ some (hs.sha256_hex transfer.summed)

-- Is the writer of `k` told to store its file?
abbrev pub Stores : Str → List FileEffect → Type 0
Stores k [] = ⊥
Stores k (commits k' ∷ es) = (k ≡ k') ⊎ Stores k es
Stores k (_ ∷ es) = Stores k es

none_there :
    (r : Receiver) (id : Str) (i : Incoming) → r.incoming ≡ [] → lookup id r.incoming ≢ some i
unfolding lookup
none_there r id i e h = cc (ap (lookup id) e, h)

module _ (hs : Hashes) (j : MetaCodec) (cipher : Aead) where
  on_plain-Keeps :
      (o : FileOutside) (l : ℕ) (m : Message) (y : MsgType) (plain : Str) (r : Receiver)
      → (w : Str → Option Str) → Tracks w r
      → Keeps w (on_plain hs j cipher o l m y plain r)
  unfolding on_plain
  on_plain-Keeps o l m MsgType.file_start plain r w v = on_start-Keeps j o l m plain r w v
  on_plain-Keeps o l m MsgType.file_chunk plain r w v =
      on_chunk-Keeps o l m plain (lookup m.id r.incoming) r w refl v
  on_plain-Keeps o l m MsgType.file_end plain r w v =
      on_end-Keeps hs o l m plain (lookup m.id r.incoming) r w v
  on_plain-Keeps o l m _ plain r w v = v

  post_ack-Tracks :
      (m : Message) (r : Receiver) (w : Str → Option Str) → Tracks w r → Tracks w (post_ack m r)
  unfolding post_ack
  post_ack-Tracks m r w v id i e = ground (arith, v id i)

  handle_file-Keeps :
      (o : FileOutside) (l : ℕ) (m : Message) (r : Receiver) (w : Str → Option Str)
      → Tracks w r
      → Keeps w (handle_file hs j cipher o l m r)
  unfolding handle_file
  handle_file-Keeps o l m r w v = elim (Bool-cases (m.to == r.me_id)) [
    | inr other ↦ rw (other, handle_file) v
    | inl mine ↦ elim (Bool-cases (is_ack hs j cipher m.type)) [
      | inl ack ↦ rw (mine, ack, handle_file) (post_ack-Tracks m r w v)
      | inr data' ↦ elim (Option-cases (open_file cipher r.content_key m)) [
        | inl bad ↦ rw (mine, data', bad, handle_file) v
        | inr (plain, good) ↦
            rw (mine, data', good, handle_file) (on_plain-Keeps o l m m.type plain r w v)
      ]
    ]
  ]

  on_end-Stores :
      (o : FileOutside) (l : ℕ) (m : Message) (plain : Str) (t : Option Incoming) (r : Receiver)
      → (k : Str) → Stores k (on_end hs o l m plain t r).1
      → (i : Incoming) × (t ≡ some i) × (k ≡ m.id) × (is_whole hs m plain i ≡ true)
  unfolding on_end
  on_end-Stores o l m plain none r k h = absurd h
  on_end-Stores o l m plain (some i) r k h = (i, refl, ground arith, ground arith)

  on_chunk-Stores :
      (o : FileOutside) (l : ℕ) (m : Message) (plain : Str) (t : Option Incoming) (r : Receiver)
      → (k : Str) → ¬ Stores k (on_chunk o l m plain t r).1
  unfolding on_chunk fail
  on_chunk-Stores o l m plain none r k h = h
  on_chunk-Stores o l m plain (some i) r k h = ground arith

  on_start-Stores :
      (o : FileOutside) (l : ℕ) (m : Message) (plain : Str) (r : Receiver) (k : Str)
      → ¬ Stores k (on_start j o l m plain r).1
  unfolding on_start
  on_start-Stores o l m plain r k h = ground arith

  on_plain-Stored :
      (o : FileOutside) (l : ℕ) (m : Message) (y : MsgType) (plain : Str) (r : Receiver)
      → (w : Str → Option Str) (k : Str) → m.type ≡ y
      → open_file cipher r.content_key m ≡ some plain
      → Tracks w r
      → Stores k (on_plain hs j cipher o l m y plain r).1
      → IsStored hs cipher m r w k
  unfolding on_plain
  on_plain-Stored o l m MsgType.file_start plain r w k e p v h =
      absurd (on_start-Stores o l m plain r k h)
  on_plain-Stored o l m MsgType.file_chunk plain r w k e p v h =
      absurd (on_chunk-Stores o l m plain (lookup m.id r.incoming) r k h)
  on_plain-Stored o l m MsgType.file_end plain r w k e p v h =
      let (i, known, same, whole) = on_end-Stores o l m plain (lookup m.id r.incoming) r k h in
      let (wrote', got) = v m.id i known in
      record {
        transfer = i;
        its_id = same;
        known = known;
        written = wrote';
        its_size = ground (arith, int_beq_iff (signed64 i.got) i.meta.size, whole, got);
        its_seq = ground (arith, int_beq_iff m.seq (signed64 i.next), whole);
        its_type = e;
        its_hash = p ∙ ap some (ground (arith, bytes_eq_iff plain (hs.sha256_hex i.summed), whole));
      }
  on_plain-Stored o l m _ plain r w k e p v h = absurd h

  pub handle_file-Stored :
      (o : FileOutside) (l : ℕ) (m : Message) (r : Receiver) (w : Str → Option Str) (k : Str)
      → Tracks w r
      → Stores k (handle_file hs j cipher o l m r).1
      → IsStored hs cipher m r w k
  unfolding handle_file
  handle_file-Stored o l m r w k v h = elim (Bool-cases (m.to == r.me_id)) [
    | inr other ↦ absurd (rw (other, handle_file) at h)
    | inl mine ↦ elim (Bool-cases (is_ack hs j cipher m.type)) [
      | inl ack ↦ absurd (rw (mine, ack, handle_file) at h)
      | inr data' ↦ elim (Option-cases (open_file cipher r.content_key m)) [
        | inl bad ↦ absurd (rw (mine, data', bad, handle_file) at h)
        | inr (plain, good) ↦
            on_plain-Stored o l m m.type plain r w k refl good v
              (rw (mine, data', good, handle_file) at h)
      ]
    ]
  ]

  -- One arrival at the node: what the outside answers, the link and the message.
  pub record FileArrival : Type 0 where
    pub outside : FileOutside
    pub link : ℕ
    pub message : Message

  -- A run of `handleFile` over arrivals, with all its effects in order.
  unfoldable pub handle_files : List FileArrival → Receiver → Receiver × List FileEffect
  handle_files [] r = (r, [])
  handle_files (a ∷ as') r =
      let (r', es) = handle_file hs j cipher a.outside a.link a.message r in
      let (r'', es') = handle_files as' r' in (r'', es ++ es')

  handle_files-Keeps :
      (as' : List FileArrival) (r : Receiver) (w : Str → Option Str)
      → Tracks w r
      → Keeps w (handle_files as' r)
  unfolding handle_files
  handle_files-Keeps [] r w v id i e = v id i e
  handle_files-Keeps (a ∷ as') r w v id i e =
      let one = handle_file hs j cipher a.outside a.link a.message r in
      let more = handle_files as' one.0 in
      let (c, g) =
        handle_files-Keeps as' one.0 (λ k. contents k one.1 (w k))
          (handle_file-Keeps a.outside a.link a.message r w v) id i e in
      (contents-append id one.1 more.1 (w id) ∙ c, g)

  -- A node that starts without transfers stores a file only at a message that ends its transfer
  -- and opens under the group's key, and only if the bytes that its writer took since the transfer
  -- began have the hash that the message carries, and are as many as was announced, counted modulo
  -- 2 ^ 64; whatever messages came before, over whatever links, and whatever the writers answered.
  pub handle_files-Stored :
      (as' : List FileArrival) (r : Receiver) (o : FileOutside) (l : ℕ) (m : Message) (k : Str)
      → r.incoming ≡ []
      → Stores k (handle_file hs j cipher o l m (handle_files as' r).0).1
      → IsStored hs cipher m
          (handle_files as' r).0
          (λ id. contents id (handle_files as' r).1 none)
          k
  handle_files-Stored as' r o l m k none_yet h =
      handle_file-Stored o l m (handle_files as' r).0 _ k
        (handle_files-Keeps as' r (λ id. none) (λ id i e. absurd (none_there r id i none_yet e))) h
