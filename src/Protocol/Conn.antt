-- ===== src/Protocol/Conn.antt =====
-- internal/protocol/conn.go: the handshake of a direct link, and its messages. What the other side
-- writes is one stream of bytes, which ends when the connection does.
pub mod Agree
use void_bridge.Base.{
  ℕ, ◌+◌, ◌*◌, ◌^◌, Bool, true, false, not, ◌&&◌, ◌||◌, List, [], ◌∷◌, ◌++◌, Option, none, some,
  Str, codes, str_eq, nat_eq, ◌==◌, ltb, if◌then◌else◌, length,
}
use void_bridge.Protocol.Message.{
  version as our_version, Identity, Message, MsgType, blank, nonce_size,
}
use void_bridge.Protocol.Crypto.{Aead, Hashes}
use void_bridge.Protocol.Link.{LinkCipher, new_cipher, seal_frame, open_frame}
use void_bridge.Protocol.Frame.{
  HeaderCodec, encode, decode, write_frame, read_frame_header, read_full,
}

pub record Conn : Type 0 where
  pub cipher : LinkCipher
  pub peer : Identity
  pub peer_addrs : List Str
  pub dialer : Bool

pub data LinkError : Type 0 where
  too_large closed oversized_hello bad_message bad_hello myself not_authentic : LinkError
  unexpected : MsgType → LinkError
  other_version : ℕ → LinkError

-- A value and what is left of the stream, or an error.
pub data Read {ℓ} (A : Type ℓ) : Type ℓ where
  got : A → Str → Read A
  bad : LinkError → Read A

abbrev pub is_hello : MsgType → Bool
is_hello MsgType.hello = true
is_hello _ = false

abbrev pub is_ready : MsgType → Bool
is_ready MsgType.ready = true
is_ready _ = false

-- `SessionKey`
unfoldable pub session_key : Hashes → Str → Str → Str → Str
session_key hs link_key client server =
    hs.hmac link_key (codes "voidbridge-session-v2" ++ (client ++ server))

-- The next frame: its header, then as many bytes.
abbrev pub take_bytes : Option (Str × Str) → Read Str
take_bytes none = bad closed
take_bytes (some (b, rest)) = got b rest

abbrev pub header_error : Str → LinkError
header_error s = if ltb (length s) 4 then closed else too_large

unfoldable pub next_frame : Str → Read Str
next_frame s = elim (read_frame_header s) [
  | none ↦ bad (header_error s)
  | some (n, rest) ↦ take_bytes (read_full n rest)
]

module _ (j : HeaderCodec) (cipher : Aead) where
  -- `Send`: none is written if the frame is too long.
  unfoldable pub send : Conn → Message → Conn × Option Str
  send c m =
      let (k, sealed) = seal_frame cipher c.cipher (encode j m) in
      (record c { cipher = k }, write_frame sealed)

  abbrev pub decoded : Option Message → Str → Conn → Read (Conn × Message)
  decoded none rest c = bad bad_message
  decoded (some m) rest c = got (c, m) rest

  abbrev pub opened : LinkCipher × Option Str → Str → Conn → Read (Conn × Message)
  opened (k, none) rest c = bad not_authentic
  opened (k, some p) rest c = decoded (decode j p) rest (record c { cipher = k })

  abbrev pub open_next : Read Str → Conn → Read (Conn × Message)
  open_next (bad e) c = bad e
  open_next (got b rest) c = opened (open_frame cipher c.cipher b) rest c

  -- `Recv`
  unfoldable pub recv : Conn → Str → Read (Conn × Message)
  unfolding next_frame
  recv c s = open_next (next_frame s) c

  module _ (hs : Hashes) (link_key : Str) (me : Identity) (addrs : List Str) (nonce : Str)
      (dialer : Bool) where
    abbrev pub hello_message : Message
    hello_message = record (blank MsgType.hello) {
      version = our_version;
      id = me.id;
      name = me.name;
      kind = me.kind;
      nonce = nonce;
      addrs = addrs;
    }

    -- The tests of the other side's hello, in their order.
    unfoldable pub hello_error : Message → Option LinkError
    hello_error peer =
        if not (is_hello peer.type)
        then some (unexpected peer.type)
        else if not (peer.version == our_version)
        then some (other_version peer.version)
        else if not (length peer.nonce == nonce_size) || (peer.id == [])
        then some bad_hello
        else if peer.id == me.id
        then some myself
        else none

    abbrev pub hello_of : Option Message → Str → Read Message
    hello_of none rest = bad bad_message
    hello_of (some m) rest = elim (hello_error m) [ none ↦ got m rest | some e ↦ bad e ]

    unfoldable pub read_hello : Str → Read Message
    unfolding hello_error
    read_hello s = elim (read_frame_header s) [
      | none ↦ bad (header_error s)
      | some (n, rest) ↦
          if ltb (64 * 2 ^ 10) n then bad oversized_hello else elim (read_full n rest) [
            | none ↦ bad closed
            | some (b, rest') ↦ hello_of (decode j b) rest'
          ]
    ]

    unfoldable pub conn_with : Message → Conn
    conn_with peer = record {
      cipher =
          new_cipher
            (if dialer
              then session_key hs link_key nonce peer.nonce
              else session_key hs link_key peer.nonce nonce)
            (not dialer);
      peer = record { id = peer.id; name = peer.name; kind = peer.kind };
      peer_addrs = peer.addrs;
      dialer = dialer;
    }

    abbrev pub ready_of : Read (Conn × Message) → Read Conn
    ready_of (bad e) = bad e
    ready_of (got (c, m) rest) = if is_ready m.type then got c rest else bad (unexpected m.type)

    -- The handshake after the other side's hello; with it, what this side writes.
    unfoldable pub ready_with : Message → Str → Str × Read Conn
    unfolding conn_with recv
    ready_with peer rest =
        let (c, out) = send (conn_with peer) (blank MsgType.ready) in
        elim out [ none ↦ ([], bad too_large) | some b ↦ (b, ready_of (recv c rest)) ]

    abbrev pub after_hello : Str → Read Message → Str × Read Conn
    after_hello g (bad e) = (g, bad e)
    after_hello g (got peer rest) = let (b, r) = ready_with peer rest in (g ++ b, r)

    -- `Handshake`: what it writes, and its result on the stream that it reads.
    unfoldable pub handshake : Str → Str × Read Conn
    unfolding read_hello ready_with
    handshake s = elim (write_frame (encode j hello_message)) [
      | none ↦ ([], bad too_large)
      | some g ↦ after_hello g (read_hello s)
    ]
