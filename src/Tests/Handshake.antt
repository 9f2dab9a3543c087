-- ===== src/Tests/Handshake.antt =====
-- The handshake of two devices. The header codec knows three messages: both hellos and ready.
use void_bridge.Base.{
  ℕ, ◌≡◌, refl, sym, true, false, Bool, ◌&&◌, List, [], ◌∷◌, Option, none, some, Str, pos, arith,
  codes, str_eq, nat_eq, int_eq, ◌==◌, bytes_eq, bytes_eq_iff, nat_beq, int_beq, int_beq_iff,
  if◌then◌else◌, Bool-cases, inl, inr, ap, take, drop, ◌++◌,
}
use void_bridge.Protocol.Message.{Identity, Message, MsgType, blank}
use void_bridge.Protocol.Link.{
  LinkCipher, IsPaired, new_cipher, seal_frame, link_nonce, big_endian, value,
}
use void_bridge.Protocol.Frame.{
  HeaderCodec, IsHeaderCodec, encode, decode, decode_parts, write_frame,
}
use void_bridge.Protocol.Conn.{
  Conn, got, send, recv, hello_message, conn_with, session_key, handshake,
}
use void_bridge.Protocol.Conn.Agree
use void_bridge.Protocol.Conn.Agree.{IsSendable}
use void_bridge.Tests.Cipher.{toy, toy-IsAead, plain_hashes}

is_type : MsgType → MsgType → Bool
is_type MsgType.hello MsgType.hello = true
is_type MsgType.ready MsgType.ready = true
is_type _ _ = false

is_type-same : (a b : MsgType) → is_type a b ≡ true → b ≡ a
unfolding is_type
is_type-same MsgType.hello MsgType.hello h = refl
is_type-same MsgType.ready MsgType.ready h = refl
is_type-same _ _ h = absurd (ground arith)

is_nil : {A : Type 0} → List A → Bool
is_nil [] = true
is_nil (x ∷ xs) = false

is_nil-same : {A : Type 0} (l : List A) → is_nil l ≡ true → l ≡ []
unfolding is_nil
is_nil-same [] h = refl
is_nil-same (x ∷ xs) h = absurd (ground arith)

-- Is the message, but for its body, the one of this type, version, id and nonce, with nothing else?
is_like : MsgType → ℕ → Str → Str → Message → Bool
is_like t v i n m =
    is_type t m.type
    && (nat_beq m.version v
        && ((m.id == i)
            && ((m.nonce == n)
                && ((m.name == [])
                    && ((m.kind == [])
                        && (is_nil m.addrs
                            && ((m.origin == [])
                                && ((m.origin_name == [])
                                    && ((m.time == pos 0)
                                        && ((m.clip_type == [])
                                            && ((m.mime == [])
                                                && (is_nil m.peers
                                                    && ((m.to == [])
                                                        && ((m.seq == pos 0)
                                                            && (m.error == [])))))))))))))))

abbrev like : MsgType → ℕ → Str → Str → Message
like t v i n = record (blank t) { version = v; id = i; nonce = n }

is_like-same :
    (t : MsgType) (v : ℕ) (i n : Str) (m : Message)
    → is_like t v i n m ≡ true
    → like t v i n ≡ record m { body = [] }
unfolding is_like
is_like-same t v i n m h =
    let p1 : t ≡ m.type = sym (is_type-same t m.type (ground arith)) in
    let p2 : v ≡ m.version = ground arith in
    let p3 : i ≡ m.id = ground (arith, bytes_eq_iff m.id i) in
    let p4 : n ≡ m.nonce = ground (arith, bytes_eq_iff m.nonce n) in
    let p5 : [] ≡ m.name = ground (arith, bytes_eq_iff m.name []) in
    let p6 : [] ≡ m.kind = ground (arith, bytes_eq_iff m.kind []) in
    let p7 : [] ≡ m.addrs = sym (is_nil-same m.addrs (ground arith)) in
    let p8 : [] ≡ m.origin = ground (arith, bytes_eq_iff m.origin []) in
    let p9 : [] ≡ m.origin_name = ground (arith, bytes_eq_iff m.origin_name []) in
    let p10 : pos 0 ≡ m.time = ground (arith, int_beq_iff m.time (pos 0)) in
    let p11 : [] ≡ m.clip_type = ground (arith, bytes_eq_iff m.clip_type []) in
    let p12 : [] ≡ m.mime = ground (arith, bytes_eq_iff m.mime []) in
    let p13 : [] ≡ m.peers = sym (is_nil-same m.peers (ground arith)) in
    let p14 : [] ≡ m.to = ground (arith, bytes_eq_iff m.to []) in
    let p15 : pos 0 ≡ m.seq = ground (arith, int_beq_iff m.seq (pos 0)) in
    let p16 : [] ≡ m.error = ground (arith, bytes_eq_iff m.error []) in
    λ x. record {
      type = p1 x;
      version = p2 x;
      id = p3 x;
      name = p5 x;
      kind = p6 x;
      nonce = p4 x;
      addrs = p7 x;
      origin = p8 x;
      origin_name = p9 x;
      time = p10 x;
      clip_type = p11 x;
      mime = p12 x;
      peers = p13 x;
      to = p14 x;
      seq = p15 x;
      error = p16 x;
      body = [];
    }

abbrev id_a : Str
id_a = codes "a"

abbrev id_b : Str
id_b = codes "b"

abbrev nonce_a : Str
nonce_a = codes "0123456789abcdef"

abbrev nonce_b : Str
nonce_b = codes "fedcba9876543210"

abbrev is_a : Message → Bool
is_a = is_like MsgType.hello 2 id_a nonce_a

abbrev is_b : Message → Bool
is_b = is_like MsgType.hello 2 id_b nonce_b

abbrev is_c : Message → Bool
is_c = is_like MsgType.ready 0 [] []

abbrev parse_tag : Str → Option Message
parse_tag [] = none
parse_tag (t ∷ s) =
    if nat_beq t 1
    then some (like MsgType.hello 2 id_a nonce_a)
    else if nat_beq t 2
    then some (like MsgType.hello 2 id_b nonce_b)
    else some (like MsgType.ready 0 [] [])

abbrev tag : Message → ℕ
tag m = if is_a m then 1 else if is_b m then 2 else 3

abbrev codec : HeaderCodec
codec = record {
  is_clean = λ m. if is_a m then true else if is_b m then true else is_c m;
  print = λ m. tag m ∷ [];
  parse = parse_tag;
}

codec-IsHeaderCodec : IsHeaderCodec codec
codec-IsHeaderCodec = record {
  parse-print = λ m clean. elim (Bool-cases (is_a m)) [
    | inl e ↦ rw e (ap (λ x. some x) (is_like-same MsgType.hello 2 id_a nonce_a m e))
    | inr e ↦ elim (Bool-cases (is_b m)) [
      | inl f ↦ rw (e, f) (ap (λ x. some x) (is_like-same MsgType.hello 2 id_b nonce_b m f))
      | inr f ↦ rw (e, f) (ap (λ x. some x) (is_like-same MsgType.ready 0 [] [] m (ground arith)))
    ]
  ];
}

abbrev a : Identity
a = record { id = id_a; name = []; kind = [] }

abbrev b : Identity
b = record { id = id_b; name = []; kind = [] }

abbrev key : Str
key = codes "k"

abbrev hello_a : Message
hello_a = hello_message codec toy plain_hashes key a [] nonce_a true

abbrev hello_b : Message
hello_b = hello_message codec toy plain_hashes key b [] nonce_b false

abbrev conn_a : Conn
conn_a = conn_with codec toy plain_hashes key a [] nonce_a true hello_b

abbrev conn_b : Conn
conn_b = conn_with codec toy plain_hashes key b [] nonce_b false hello_a

abbrev ready : Message
ready = blank MsgType.ready

program : Unit {0}
unfolding is_like is_type is_nil encode decode write_frame send conn_with seal_frame new_cipher
    link_nonce big_endian session_key bytes_eq int_beq value take drop decode_parts
program = tt

hello_a-IsSendable : IsSendable codec hello_a
unfolding program
hello_a-IsSendable = record { clean = refl; typed = refl; small = omega arith }

hello_b-IsSendable : IsSendable codec hello_b
unfolding program
hello_b-IsSendable = record { clean = refl; typed = refl; small = omega arith }

ready-IsSendable : IsSendable codec ready
unfolding program
ready-IsSendable = record { clean = refl; typed = refl; small = omega arith }

-- What an optional result holds.
abbrev bytes_of : Option Str → Str
bytes_of none = []
bytes_of (some s) = s

abbrev greet_a : Str
greet_a = 0 ∷ 0 ∷ 0 ∷ 5 ∷ 0 ∷ 0 ∷ 0 ∷ 1 ∷ 1 ∷ []

abbrev greet_b : Str
greet_b = 0 ∷ 0 ∷ 0 ∷ 5 ∷ 0 ∷ 0 ∷ 0 ∷ 1 ∷ 2 ∷ []

abbrev ready_a : Str
ready_a = bytes_of (send codec toy conn_a ready).1

abbrev ready_b : Str
ready_b = bytes_of (send codec toy conn_b ready).1

recv-send_example :
    (k : LinkCipher) × (recv codec toy conn_b (ready_a ++ codes "x")
      ≡ got (record conn_b { cipher = k }, ready) (codes "x"))
    × IsPaired (send codec toy conn_a ready).0.cipher k
    × Agree.SameSending conn_b.cipher k
unfolding program
recv-send_example =
    Agree.recv-send codec codec-IsHeaderCodec toy toy-IsAead conn_a conn_b ready ready_a (codes "x")
      (record { same_key = refl; same_dir = refl; same_count = refl }) ready-IsSendable refl

handshake-handshake_example :
    (x : Conn) × (y : Conn) × (handshake codec toy plain_hashes key a [] nonce_a true
        (greet_b ++ (ready_b ++ codes "s"))
      ≡ (greet_a ++ ready_a, got x (codes "s")))
    × (handshake codec toy plain_hashes key b [] nonce_b false (greet_a ++ (ready_a ++ codes "t"))
        ≡ (greet_b ++ ready_b, got y (codes "t")))
    × (x.peer ≡ b)
    × (y.peer ≡ a)
    × IsPaired x.cipher y.cipher
    × IsPaired y.cipher x.cipher
unfolding program
handshake-handshake_example =
    Agree.handshake-handshake codec codec-IsHeaderCodec toy toy-IsAead plain_hashes key a b [] []
      nonce_a nonce_b greet_a greet_b ready_a ready_b (codes "s") (codes "t") (ground arith)
      (ground arith) (ground arith) refl refl hello_a-IsSendable hello_b-IsSendable ready-IsSendable
      (omega arith) (omega arith) refl refl refl refl
