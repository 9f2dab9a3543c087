-- ===== src/Node/Files.antt =====
-- internal/node/files.go: what a node does with the messages of a file transfer. The handlers of
-- one link run one after another, so each is one function. Handlers of several links, which Go can
-- run at the same time, are taken one after another as well.
pub mod Commit
pub mod Sender
pub mod Effects
pub mod Delivery
use void_bridge.Base.{
  signed64, plus64, ℕ, ◌+◌, ◌-◌, ◌*◌, ◌^◌, ◌%◌, ◌≡◌, ◌&&◌, Bool, true, false, not, ◌||◌, List, [],
  ◌∷◌, ◌++◌, Option, none, some, Str, ℤ, pos, negsuc, str_eq, int_eq, ◌==◌, ltb, if◌then◌else◌,
  length, codes, int_lt, filterb, map,
}
use void_bridge.Base.Dict.{lookup, insert, delete, sweep}
use void_bridge.Protocol.Message.{Message, MsgType, PeerInfo, blank}
use void_bridge.Protocol.Crypto.{Aead, Hashes}
use void_bridge.Protocol.Seal.{open_file}

pub record FileMeta : Type 0 where
  pub name : Str
  pub size : ℤ
  pub mime : Str

-- JSON of a `FileMeta`, and whether a string is UTF-8, from Go's library.
pub record MetaCodec : Type 0 where
  pub is_utf8 : Str → Bool
  pub print : FileMeta → Str
  pub parse : Str → Option FileMeta

-- What was printed is read back, if its strings are UTF-8.
pub record IsMetaCodec (j : MetaCodec) : Type 0 where
  pub parse-print :
      (m : FileMeta) → (j.is_utf8 m.name && j.is_utf8 m.mime) ≡ true → j.parse (j.print m) ≡ some m

pub record FileSender : Type 0 where
  pub id : Str
  pub name : Str

-- A file that is arriving. Its writer is known by the transfer's id; `summed` is what the hash has
-- taken in.
pub record Incoming : Type 0 where
  pub meta : FileMeta
  pub from : FileSender
  pub link : ℕ
  pub next : ℕ
  pub got : ℕ
  pub summed : Str
  pub active : ℕ

-- The part of a node that files concern. `acks` are the channels, with room for one answer each,
-- on which this node's own sends wait.
pub record Receiver : Type 0 where
  pub me_id : Str
  pub content_key : Str
  pub can_receive : Bool
  pub incoming : List (Str × Incoming)
  pub acks : List (Str × Option Str)

-- What a handler does: to the writer of a transfer, to the receiver's user, and to a link.
pub data FileEffect : Type 0 where
  begins : Str → FileMeta → FileSender → FileEffect
  writes : Str → Str → FileEffect
  commits : Str → FileEffect
  aborts : Str → FileEffect
  received : FileMeta → FileSender → Option Str → FileEffect
  progress : Str → FileMeta → FileSender → ℤ → FileEffect
  sends : ℕ → Message → FileEffect

-- What the outside answers during one handler: the time, and the errors of the file's writer.
pub record FileOutside : Type 0 where
  pub now : ℕ
  pub begin_error : Option Str
  pub write_error : Option Str
  pub commit_error : Option Str

abbrev pub file_idle_timeout : ℕ
file_idle_timeout = 60 * 10 ^ 9

-- `sendAck`
abbrev pub ack_message : Str → Message → Str → Message
ack_message me m reason = record (blank MsgType.file_ack) {
  id = m.id;
  origin = me;
  to = m.origin;
  error = reason;
}

abbrev pub cannot_receive : Str
cannot_receive = codes "that device can't receive files"

abbrev pub bad_header : Str
bad_header = codes "bad file header"

abbrev pub not_saved : Str
not_saved = codes "the other device couldn't save the file: "

abbrev pub not_written : Str
not_written = codes "the other device couldn't write the file: "

abbrev pub out_of_order : Str
out_of_order = codes "file data arrived out of order"

abbrev pub too_much : Str
too_much = codes "more data than announced"

abbrev pub incomplete : Str
incomplete = codes "the file arrived incomplete"

abbrev pub connection_lost : Str
connection_lost = codes "the transfer stopped (connection lost)"

abbrev pub sender_of : Message → FileSender
sender_of m = record { id = m.origin; name = m.origin_name }

-- `ch <- m.Error`, dropped if the channel is full.
unfoldable pub post_ack : Message → Receiver → Receiver
post_ack m r = elim (lookup m.id r.acks) [
  | some none ↦ record r { acks = insert m.id (some m.error) r.acks }
  | _ ↦ r
]

-- The closure `fail`, for a transfer that is there.
unfoldable pub fail : ℕ → Message → Incoming → Str → Receiver → Receiver × List FileEffect
fail l m i reason r = (
  record r { incoming = delete m.id r.incoming },
  aborts m.id ∷ received i.meta i.from (some reason) ∷ sends l (ack_message r.me_id m reason) ∷ [],
)

abbrev pub begun : FileOutside → ℕ → Message → FileMeta → Incoming
begun o l m meta = record {
  meta = meta;
  from = sender_of m;
  link = l;
  next = 0;
  got = 0;
  summed = [];
  active = o.now;
}

module _ (j : MetaCodec) where
  unfoldable pub on_start : FileOutside → ℕ → Message → Str → Receiver → Receiver × List FileEffect
  on_start o l m plain r =
      if not r.can_receive
      then (r, sends l (ack_message r.me_id m cannot_receive) ∷ [])
      else elim (j.parse plain) [
        | none ↦ (r, sends l (ack_message r.me_id m bad_header) ∷ [])
        | some meta ↦
            if int_lt meta.size (pos 0)
            then (r, sends l (ack_message r.me_id m bad_header) ∷ [])
            else elim o.begin_error [
              | some e ↦ (r, sends l (ack_message r.me_id m (not_saved ++ e)) ∷ [])
              | none ↦ (
                record r { incoming = insert m.id (begun o l m meta) r.incoming },
                begins m.id meta (sender_of m) ∷ [],
              )
            ]
      ]

-- The transfer after a chunk was counted.
abbrev pub counted : FileOutside → Str → Incoming → Incoming
counted o plain i = record i {
  next = plus64 i.next 1;
  got = plus64 i.got (length plain);
  active = o.now;
}

abbrev pub with_transfer : Message → Incoming → Receiver → Receiver
with_transfer m i r = record r { incoming = insert m.id i r.incoming }

unfoldable pub on_chunk :
    FileOutside → ℕ → Message → Str → Option Incoming → Receiver → Receiver × List FileEffect
unfolding fail
on_chunk o l m plain none r = (r, [])
on_chunk o l m plain (some i) r =
    if not (m.seq == signed64 i.next)
    then fail l m i out_of_order r
    else (let i' = counted o plain i in
        if int_lt i.meta.size (signed64 i'.got)
        then fail l m i' too_much r
        else elim o.write_error [
          | some e ↦
              (let (r', es) = fail l m i' (not_written ++ e) r in (r', writes m.id plain ∷ es))
          | none ↦ (
            with_transfer m (record i' { summed = i.summed ++ plain }) r,
            writes m.id plain ∷ progress m.id i.meta i.from (signed64 i'.got) ∷ [],
          )
        ])

module _ (hs : Hashes) where
  -- Does the end of the transfer agree with what arrived?
  abbrev pub is_whole : Message → Str → Incoming → Bool
  is_whole m plain i =
      (m.seq == signed64 i.next)
      && ((signed64 i.got == i.meta.size) && (plain == hs.sha256_hex i.summed))

  unfoldable pub on_end :
      FileOutside → ℕ → Message → Str → Option Incoming → Receiver → Receiver × List FileEffect
  on_end o l m plain none r = (r, [])
  on_end o l m plain (some i) r = (
    record r { incoming = delete m.id r.incoming },
    if not (is_whole m plain i)
        then aborts m.id
          ∷ received i.meta i.from (some incomplete)
          ∷ sends l (ack_message r.me_id m incomplete)
          ∷ []
        else elim o.commit_error [
          | some e ↦
              commits m.id
              ∷ received i.meta i.from (some e)
              ∷ sends l (ack_message r.me_id m (not_saved ++ e))
              ∷ []
          | none ↦
              commits m.id ∷ received i.meta i.from none ∷ sends l (ack_message r.me_id m []) ∷ []
        ],
  )

  module _ (j : MetaCodec) (cipher : Aead) where
    unfoldable pub on_plain :
        FileOutside → ℕ → Message → MsgType → Str → Receiver → Receiver × List FileEffect
    on_plain o l m MsgType.file_start plain r = on_start j o l m plain r
    on_plain o l m MsgType.file_chunk plain r = on_chunk o l m plain (lookup m.id r.incoming) r
    on_plain o l m MsgType.file_end plain r = on_end o l m plain (lookup m.id r.incoming) r
    on_plain o l m _ plain r = (r, [])

    abbrev pub is_ack : MsgType → Bool
    is_ack MsgType.file_ack = true
    is_ack _ = false

    -- `handleFile`
    unfoldable pub handle_file : FileOutside → ℕ → Message → Receiver → Receiver × List FileEffect
    handle_file o l m r =
        if not (m.to == r.me_id)
        then (r, [])
        else if is_ack m.type
        then (post_ack m r, [])
        else elim (open_file cipher r.content_key m) [
          | none ↦ (r, [])
          | some plain ↦ on_plain o l m m.type plain r
        ]

abbrev pub is_quiet : ℕ → Incoming → Bool
is_quiet now i = ltb (i.active + file_idle_timeout) now

-- `expireFiles`
unfoldable pub expired : ℕ → List (Str × Incoming) → Bool → List FileEffect
expired now [] told = []
expired now ((id, i) ∷ is) told =
    if is_quiet now i
    then aborts id
      ∷ ((if told then received i.meta i.from (some connection_lost) ∷ [] else [])
          ++ expired now is told)
    else expired now is told

unfoldable pub expire_files : ℕ → Receiver → Receiver × List FileEffect
unfolding expired
expire_files now r =
    (record r { incoming = sweep (is_quiet now) r.incoming }, expired now r.incoming r.can_receive)
