-- ===== src/Protocol/Message.antt =====
-- internal/protocol/protocol.go: the message, its types and the order of clips.
use void_bridge.Base.{
  ℕ, ◌*◌, ◌^◌, Bool, true, false, List, [], ◌∷◌, Option, none, some, Str, ltb, ◌==◌, str_eq, int_eq,
  ℤ, pos, int_lt, if◌then◌else◌,
}

-- The number of the protocol, and the sizes in bytes.
abbrev pub version : ℕ
version = 2

abbrev pub max_frame : ℕ
max_frame = 40 * 2 ^ 20

abbrev pub max_text : ℕ
max_text = 2 ^ 20

abbrev pub max_image : ℕ
max_image = 25 * 2 ^ 20

abbrev pub nonce_size : ℕ
nonce_size = 16

abbrev pub file_chunk_size : ℕ
file_chunk_size = 512 * 2 ^ 10

-- The message types; `other` is any text that the program does not know.
pub data MsgType : Type 0 where
  hello ready ping pong clip peers devices file_start file_chunk file_end file_ack : MsgType
  other : Str → MsgType

-- internal/protocol/conn.go: the local device, or the other end of a link.
pub record Identity : Type 0 where
  pub id : Str
  pub name : Str
  pub kind : Str

pub record PeerInfo : Type 0 where
  pub id : Str
  pub name : Str
  pub kind : Str
  pub addrs : List Str

pub record Message : Type 0 where
  pub type : MsgType
  pub version : ℕ
  pub id : Str
  pub name : Str
  pub kind : Str
  pub nonce : Str
  pub addrs : List Str
  pub origin : Str
  pub origin_name : Str
  pub time : ℤ
  pub clip_type : Str
  pub mime : Str
  pub peers : List PeerInfo
  pub to : Str
  pub seq : ℤ
  pub error : Str
  pub body : Str

-- Go's zero value of a message, but for its type.
abbrev pub blank : MsgType → Message
blank t = record {
  type = t;
  version = 0;
  id = [];
  name = [];
  kind = [];
  nonce = [];
  addrs = [];
  origin = [];
  origin_name = [];
  time = pos 0;
  clip_type = [];
  mime = [];
  peers = [];
  to = [];
  seq = pos 0;
  error = [];
  body = [];
}

-- Go's `<` on strings: byte by byte, and a prefix comes first.
unfoldable pub str_lt : Str → Str → Bool
str_lt a [] = false
str_lt [] (y ∷ ys) = true
str_lt (x ∷ xs) (y ∷ ys) = if ltb x y then true else if ltb y x then false else str_lt xs ys

unfoldable pub newer_than : Message → Message → Bool
newer_than m cur = if m.time == cur.time then str_lt cur.id m.id else int_lt cur.time m.time

unfoldable pub newer : Message → Option Message → Bool
unfolding newer_than
newer m none = true
newer m (some cur) = newer_than m cur

unfoldable pub is_file : MsgType → Bool
is_file MsgType.file_start = true
is_file MsgType.file_chunk = true
is_file MsgType.file_end = true
is_file MsgType.file_ack = true
is_file _ = false
