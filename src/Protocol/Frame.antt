-- ===== src/Protocol/Frame.antt =====
-- internal/protocol/protocol.go: messages as bytes, and frames with their lengths.
use void_bridge.Base.{
  ℕ, ◌+◌, ◌-◌, ◌^◌, ◌<◌, ◌≤◌, ◌≡◌, refl, sym, ap, ◌∙◌, Bool, true, false, [], ◌∷◌, ◌++◌, Option,
  none, some, Str, arith, str_eq, ◌==◌, ltb, if◌then◌else◌, length, take, drop, length-append,
  take-length-append, drop-length-append, append_assoc,
}
use void_bridge.Protocol.Message.{Message, MsgType, max_frame}
use void_bridge.Protocol.Link.{big_endian, value, value-big_endian, length-big_endian}

-- JSON of a message without its body, from Go's library, and whether JSON keeps the message: its
-- strings are UTF-8 and `other` is not the name of a known type.
pub record HeaderCodec : Type 0 where
  pub is_clean : Message → Bool
  pub print : Message → Str
  pub parse : Str → Option Message

-- What was printed is read back, but for the body.
pub record IsHeaderCodec (j : HeaderCodec) : Type 0 where
  pub parse-print :
      (m : Message) → j.is_clean m ≡ true → j.parse (j.print m) ≡ some (record m { body = [] })

abbrev pub is_untyped : MsgType → Bool
is_untyped (MsgType.other s) = s == []
is_untyped _ = false

abbrev pub with_body : Str → Message → Message
with_body [] m = m
with_body (x ∷ s) m = record m { body = x ∷ s }

-- `binary.BigEndian.Uint32` of the first four bytes.
abbrev pub uint32_of : Str → ℕ
uint32_of s = value 0 (take 4 s)

module _ (j : HeaderCodec) where
  -- The length of the header is kept in 32 bits.
  unfoldable pub encode : Message → Str
  encode m = let h = j.print m in big_endian 4 (length h) ++ (h ++ m.body)

  -- What the header's JSON and the bytes after it give.
  unfoldable pub decode_parts : Option Message → Str → Option Message
  decode_parts none rest = none
  decode_parts (some m) rest = if is_untyped m.type then none else some (with_body rest m)

  unfoldable pub decode : Str → Option Message
  unfolding decode_parts
  decode b =
      let n = uint32_of b in
      let s = drop 4 b in
      if ltb (length b) 4
      then none
      else if ltb (length b - 4) n
      then none
      else decode_parts (j.parse (take n s)) (drop n s)

unfoldable pub write_frame : Str → Option Str
write_frame p =
    if ltb (max_frame + 64) (length p) then none else some (big_endian 4 (length p) ++ p)

-- The length and what follows, from the bytes that a connection gives before it ends.
unfoldable pub read_frame_header : Str → Option (ℕ × Str)
read_frame_header s =
    if ltb (length s) 4
    then none
    else if ltb (max_frame + 64) (uint32_of s)
    then none
    else some (uint32_of s, drop 4 s)

-- `io.ReadFull`
unfoldable pub read_full : ℕ → Str → Option (Str × Str)
read_full n s = if ltb (length s) n then none else some (take n s, drop n s)

prefixed :
    (n : ℕ) (s : Str)
    → (take 4 (big_endian 4 n ++ s) ≡ big_endian 4 n) × (drop 4 (big_endian 4 n ++ s) ≡ s)
prefixed n s =
    let l = length-big_endian 4 n in
    (
      ap (λ k. take k (big_endian 4 n ++ s)) (sym l) ∙ take-length-append (big_endian 4 n) s,
      ap (λ k. drop k (big_endian 4 n ++ s)) (sym l) ∙ drop-length-append (big_endian 4 n) s,
    )

uint32_of_prefixed : (n : ℕ) (s : Str) → n < 2 ^ 32 → uint32_of (big_endian 4 n ++ s) ≡ n
uint32_of_prefixed n s h = ap (value 0) (prefixed n s).0 ∙ value-big_endian 4 n (omega arith)

length-prefixed : (n : ℕ) (s : Str) → length (big_endian 4 n ++ s) ≡ 4 + length s
length-prefixed n s = omega (arith, length-append (big_endian 4 n) s, length-big_endian 4 n)

with_body-body : (m : Message) → with_body m.body (record m { body = [] }) ≡ m
with_body-body m = go m.body m refl
  where
    go : (b : Str) (m : Message) → m.body ≡ b → with_body b (record m { body = [] }) ≡ m
    go [] m e = ap (λ b. record m { body = b }) (sym e)
    go (x ∷ b) m e = ap (λ b. record m { body = b }) (sym e)

-- A message with a type that JSON keeps, whose header is shorter than 2 ^ 32 bytes, is decoded from
-- what it was encoded to, with its body.
pub decode-encode :
    (j : HeaderCodec) (m : Message)
    → IsHeaderCodec j
    → j.is_clean m ≡ true
    → is_untyped m.type ≡ false
    → length (j.print m) < 2 ^ 32
    → decode j (encode j m) ≡ some m
unfolding decode encode decode_parts
decode-encode j m laws clean typed small =
    let h = j.print m in
    let b = big_endian 4 (length h) ++ (h ++ m.body) in
    let n : uint32_of b ≡ length h = uint32_of_prefixed (length h) (h ++ m.body) small in
    let s : drop 4 b ≡ h ++ m.body = (prefixed (length h) (h ++ m.body)).1 in
    let long : ltb (length b) 4 ≡ false =
      ground (arith, length-prefixed (length h) (h ++ m.body)) in
    let whole : ltb (length b - 4) (length h) ≡ false =
      ground (arith, length-prefixed (length h) (h ++ m.body), length-append h m.body) in
    rw
      (
        decode,
        n,
        s,
        long,
        whole,
        take-length-append h m.body,
        drop-length-append h m.body,
        laws.parse-print m clean,
        decode_parts,
        typed,
      )
      (ap (λ x. some x) (with_body-body m))

-- A frame that is not too long is read back from a stream, with what follows it.
pub read_full-write_frame :
    (p rest : Str)
    → length p ≤ max_frame + 64
    → (write_frame p ≡ some (big_endian 4 (length p) ++ p))
      × (read_frame_header ((big_endian 4 (length p) ++ p) ++ rest) ≡ some (length p, p ++ rest))
      × (read_full (length p) (p ++ rest) ≡ some (p, rest))
unfolding write_frame read_frame_header read_full
read_full-write_frame p rest h =
    let e = append_assoc (big_endian 4 (length p)) p rest in
    let n = uint32_of_prefixed (length p) (p ++ rest) (omega arith) in
    let l = length-prefixed (length p) (p ++ rest) in
    (
      ground arith,
      rw (e, n, (prefixed (length p) (p ++ rest)).1) (ground arith),
      rw (take-length-append p rest, drop-length-append p rest)
          (ground (arith, length-append p rest)),
    )
