-- ===== src/Protocol/Seal.antt =====
-- internal/protocol/protocol.go: the encryption of clips and of file messages, end to end.
pub mod Binding
use void_bridge.Base.{
  ℕ, ◌<◌, Option, none, some, Str, ◌++◌, ◌∷◌, [], length, take, drop, ltb, if◌then◌else◌, codes,
  format_int,
}
use void_bridge.Protocol.Message.{Message, MsgType}
use void_bridge.Protocol.Crypto.{Aead}

-- The bytes of `|`, and the size of a nonce of the cipher.
abbrev pub bar : ℕ
bar = b'|'

abbrev pub aead_nonce_size : ℕ
aead_nonce_size = 12

abbrev pub clip_label : Str
clip_label = codes "voidbridge-clip-v2|"

abbrev pub file_label : Str
file_label = codes "voidbridge-file-v2|"

unfoldable pub type_name : MsgType → Str
type_name MsgType.hello = codes "hello"
type_name MsgType.ready = codes "ready"
type_name MsgType.ping = codes "ping"
type_name MsgType.pong = codes "pong"
type_name MsgType.clip = codes "clip"
type_name MsgType.peers = codes "peers"
type_name MsgType.devices = codes "devices"
type_name MsgType.file_start = codes "file_start"
type_name MsgType.file_chunk = codes "file_chunk"
type_name MsgType.file_end = codes "file_end"
type_name MsgType.file_ack = codes "file_ack"
type_name (MsgType.other t) = t

unfoldable pub clip_aad : Message → Str
clip_aad m =
    clip_label
    ++ (m.id
        ++ bar ∷ (m.origin ++ bar ∷ (format_int m.time ++ bar ∷ (m.clip_type ++ bar ∷ m.mime))))

unfoldable pub file_aad : Message → Str
unfolding type_name
file_aad m =
    file_label
    ++ (type_name m.type
        ++ bar ∷ (m.id ++ bar ∷ (m.origin ++ bar ∷ (m.to ++ bar ∷ format_int m.seq))))

module _ (c : Aead) (key : Str) where
  -- The body of both kinds: a nonce, and what the cipher makes of the payload.
  seal_body : Str → Str → Str → Str
  seal_body nonce plain aad = nonce ++ c.seal key nonce plain aad

  open_body : Str → Str → Option Str
  open_body body aad =
      if ltb (length body) aead_nonce_size
      then none
      else c.open_sealed key (take aead_nonce_size body) (drop aead_nonce_size body) aad

  -- The nonce is the one drawn at random.
  unfoldable pub seal_clip : Str → Message → Str → Message
  unfolding seal_body
  seal_clip nonce m plain = record m { body = seal_body nonce plain (clip_aad m) }

  unfoldable pub open_clip : Message → Option Str
  unfolding open_body
  open_clip m = open_body m.body (clip_aad m)

  unfoldable pub seal_file : Str → Message → Str → Message
  unfolding seal_body
  seal_file nonce m plain = record m { body = seal_body nonce plain (file_aad m) }

  unfoldable pub open_file : Message → Option Str
  unfolding open_body
  open_file m = open_body m.body (file_aad m)
