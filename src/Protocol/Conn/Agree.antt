-- ===== src/Protocol/Conn/Agree.antt =====
-- Two devices on one stream each way: messages arrive, and the handshake agrees.
use void_bridge.Base.{
  ◌+◌, ◌*◌, ◌^◌, ◌<◌, ◌≤◌, ◌≡◌, ◌≢◌, refl, ap, ◌∙◌, Bool, true, false, List, [], ◌++◌, none, some,
  Str, str_eq, nat_eq, ltb, length, arith, bytes_eq_iff,
}
use void_bridge.Protocol.Message.{Identity, Message, MsgType, blank, nonce_size, max_frame}
use void_bridge.Protocol.Crypto.{Aead, IsAead, Hashes}
use void_bridge.Protocol.Link.{
  LinkCipher, new_cipher, seal_frame, open_frame, IsPaired, open_frame-seal_frame, big_endian,
}
use void_bridge.Protocol.Frame.{
  HeaderCodec, IsHeaderCodec, encode, write_frame, read_frame_header, is_untyped, decode-encode,
  read_full-write_frame,
}
use void_bridge.Protocol.Conn.{
  Conn, Read, got, bad, next_frame, send, recv, hello_message, hello_error, read_hello, conn_with,
  ready_with, handshake,
}

-- JSON keeps the message, it has a type, and its header is shorter than 2 ^ 32 bytes.
pub record IsSendable (j : HeaderCodec) (m : Message) : Type 0 where
  pub clean : j.is_clean m ≡ true
  pub typed : is_untyped m.type ≡ false
  pub small : length (j.print m) < 2 ^ 32

abbrev framed : Str → Str
framed p = big_endian 4 (length p) ++ p

write_frame-some :
    (p b : Str) → write_frame p ≡ some b → (length p ≤ max_frame + 64) × (b ≡ framed p)
unfolding write_frame
write_frame-some p b h = ground arith

next_frame-framed :
    (p rest : Str) → length p ≤ max_frame + 64 → next_frame (framed p ++ rest) ≡ got p rest
unfolding next_frame
next_frame-framed p rest h =
    let (_, e, f) = read_full-write_frame p rest h in rw (next_frame, e, f) refl

-- The sending side of a cipher is the same.
pub record SameSending (k k' : LinkCipher) : Type 0 where
  pub key_same : k'.key ≡ k.key
  pub dir_same : k'.send_dir ≡ k.send_dir
  pub count_same : k'.send_count ≡ k.send_count

open_frame-SameSending : (c : Aead) (k : LinkCipher) (b : Str) → SameSending k (open_frame c k b).0
unfolding open_frame
open_frame-SameSending c k b = record {
  key_same = ground arith;
  dir_same = ground arith;
  count_same = ground arith;
}

module _ (j : HeaderCodec) (jlaws : IsHeaderCodec j) (cipher : Aead) (laws : IsAead cipher) where
  -- A message that one end of a paired link sends, and the frame of which is not too long, is what
  -- the other end receives; what follows it on the stream is left, and the ends stay paired.
  pub recv-send :
      (a b : Conn) (m : Message) (bytes rest : Str)
      → IsPaired a.cipher b.cipher
      → IsSendable j m
      → (send j cipher a m).1 ≡ some bytes
      → (k : LinkCipher) × (recv j cipher b (bytes ++ rest) ≡ got (record b { cipher = k }, m) rest)
        × IsPaired (send j cipher a m).0.cipher k
        × SameSending b.cipher k
  unfolding send recv
  recv-send a b m bytes rest v ok h =
      let sealed = (seal_frame cipher a.cipher (encode j m)).1 in
      let (fits, e) = write_frame-some sealed bytes h in
      let (f, v') = open_frame-seal_frame cipher laws a.cipher b.cipher (encode j m) v in
      let k = (open_frame cipher b.cipher sealed).0 in
      let read : next_frame (bytes ++ rest) ≡ got sealed rest =
        ap (λ x. next_frame (x ++ rest)) e ∙ next_frame-framed sealed rest fits in
      let both : open_frame cipher b.cipher sealed ≡ (k, some (encode j m)) = ap (λ o. (k, o)) f in
      (
        k,
        rw (recv, read, both, decode-encode j m jlaws ok.clean ok.typed ok.small) refl,
        v',
        open_frame-SameSending cipher b.cipher sealed,
      )

  read_hello-hello :
      (hs : Hashes) (key : Str) (me : Identity) (addrs : List Str) (nonce : Str) (dialer : Bool)
      (peer : Message) (bytes rest : Str)
      → IsSendable j peer
      → write_frame (encode j peer) ≡ some bytes
      → length (encode j peer) ≤ 64 * 2 ^ 10
      → hello_error j cipher hs key me addrs nonce dialer peer ≡ none
      → read_hello j cipher hs key me addrs nonce dialer (bytes ++ rest) ≡ got peer rest
  unfolding read_hello
  read_hello-hello hs key me addrs nonce dialer peer bytes rest ok h short fine =
      let p = encode j peer in
      let (fits, e) = write_frame-some p bytes h in
      let (_, f, g) = read_full-write_frame p rest fits in
      let header : read_frame_header (bytes ++ rest) ≡ some (length p, p ++ rest) =
        ap (λ x. read_frame_header (x ++ rest)) e ∙ f in
      let fits' : ltb (64 * 2 ^ 10) (length p) ≡ false = ground arith in
      rw (read_hello, header, fits', g, decode-encode j peer jlaws ok.clean ok.typed ok.small)
        (ap (λ e. elim e as (λ _. Read Message) [ none ↦ got peer rest | some x ↦ bad x ]) fine)

  module _ (hs : Hashes) (key : Str) (me : Identity) (addrs : List Str) (nonce : Str)
      (dialer : Bool) where
    ready_with-recv :
        (peer : Message) (s r rest : Str) (x : Conn)
        → let out =
            send j cipher
              (conn_with j cipher hs key me addrs nonce dialer peer)
              (blank MsgType.ready) in
          out.1 ≡ some r
          → recv j cipher out.0 s ≡ got (x, blank MsgType.ready) rest
          → ready_with j cipher hs key me addrs nonce dialer peer s ≡ (r, got x rest)
    unfolding ready_with
    ready_with-recv peer s r rest x e f = rw (ready_with, e, f) refl

    handshake-ready :
        (peer : Message) (g s r rest rest' : Str) (x : Conn)
        → write_frame (encode j (hello_message j cipher hs key me addrs nonce dialer)) ≡ some g
        → read_hello j cipher hs key me addrs nonce dialer s ≡ got peer rest
        → ready_with j cipher hs key me addrs nonce dialer peer rest ≡ (r, got x rest')
        → handshake j cipher hs key me addrs nonce dialer s ≡ (g ++ r, got x rest')
    unfolding handshake
    handshake-ready peer g s r rest rest' x e f h = rw (handshake, e, f, h) refl

  -- One side: given the other's conn at the end of its own handshake.
  side :
      (hs : Hashes) (key : Str) (me : Identity) (addrs : List Str) (nonce : Str) (dialer : Bool)
      (peer : Message) (g g' r r' rest : Str) (other : Conn)
      → let c = conn_with j cipher hs key me addrs nonce dialer peer in
        write_frame (encode j (hello_message j cipher hs key me addrs nonce dialer)) ≡ some g
        → IsSendable j peer
        → write_frame (encode j peer) ≡ some g'
        → length (encode j peer) ≤ 64 * 2 ^ 10
        → hello_error j cipher hs key me addrs nonce dialer peer ≡ none
        → (send j cipher c (blank MsgType.ready)).1 ≡ some r
        → IsSendable j (blank MsgType.ready)
        → (send j cipher other (blank MsgType.ready)).1 ≡ some r'
        → IsPaired other.cipher (send j cipher c (blank MsgType.ready)).0.cipher
        → (k : LinkCipher) × (handshake j cipher hs key me addrs nonce dialer (g' ++ (r' ++ rest))
            ≡ (g ++ r, got (record c { cipher = k }) rest))
          × IsPaired (send j cipher other (blank MsgType.ready)).0.cipher k
          × SameSending (send j cipher c (blank MsgType.ready)).0.cipher k
  unfolding send
  side hs key me addrs nonce dialer peer g g' r r' rest other greets ok h short fine mine ready
        theirs v =
      let c = conn_with j cipher hs key me addrs nonce dialer peer in
      let ready_message = blank MsgType.ready in
      let c' = (send j cipher c ready_message).0 in
      let (k, e, w, t) = recv-send other c' ready_message r' rest v ready theirs in
      let read =
        read_hello-hello hs key me addrs nonce dialer peer g' (r' ++ rest) ok h short fine in
      let x : Conn = record c { cipher = k } in
      let whole = ready_with-recv hs key me addrs nonce dialer peer (r' ++ rest) r rest x mine e in
      (
        k,
        handshake-ready hs key me addrs nonce dialer peer g (g' ++ (r' ++ rest)) r (r' ++ rest) rest
            x greets read whole,
        w,
        t,
      )

  -- Two devices with the same link key, different ids that are not empty, nonces of the right
  -- length, and hellos and readies that can be sent and, for the hellos, fit 64 KB: each handshake,
  -- on what the other writes, succeeds with the other's identity, and leaves what comes after it on
  -- the stream. The two links are paired in both directions.
  pub handshake-handshake :
      (hs : Hashes) (key : Str) (a b : Identity) (as' bs : List Str) (na nb : Str)
      (ga gb ra rb s t : Str)
      → let ha = hello_message j cipher hs key a as' na true in
        let hb = hello_message j cipher hs key b bs nb false in
        let ca = conn_with j cipher hs key a as' na true hb in
        let cb = conn_with j cipher hs key b bs nb false ha in
        a.id ≢ b.id
        → a.id ≢ []
        → b.id ≢ []
        → length na ≡ nonce_size
        → length nb ≡ nonce_size
        → IsSendable j ha
        → IsSendable j hb
        → IsSendable j (blank MsgType.ready)
        → length (encode j ha) ≤ 64 * 2 ^ 10
        → length (encode j hb) ≤ 64 * 2 ^ 10
        → write_frame (encode j ha) ≡ some ga
        → write_frame (encode j hb) ≡ some gb
        → (send j cipher ca (blank MsgType.ready)).1 ≡ some ra
        → (send j cipher cb (blank MsgType.ready)).1 ≡ some rb
        → (x : Conn) × (y : Conn) × (handshake j cipher hs key a as' na true (gb ++ (rb ++ s))
            ≡ (ga ++ ra, got x s))
          × (handshake j cipher hs key b bs nb false (ga ++ (ra ++ t)) ≡ (gb ++ rb, got y t))
          × (x.peer ≡ b)
          × (y.peer ≡ a)
          × IsPaired x.cipher y.cipher
          × IsPaired y.cipher x.cipher
  unfolding send conn_with seal_frame new_cipher hello_error
  handshake-handshake hs key a b as' bs na nb ga gb ra rb s t other ia ib la lb oa ob ready sa sb wa
        wb ya yb =
      let ha = hello_message j cipher hs key a as' na true in
      let hb = hello_message j cipher hs key b bs nb false in
      let ca = conn_with j cipher hs key a as' na true hb in
      let cb = conn_with j cipher hs key b bs nb false ha in
      let fine_b : hello_error j cipher hs key a as' na true hb ≡ none =
        ground (arith, bytes_eq_iff b.id a.id, bytes_eq_iff b.id []) in
      let fine_a : hello_error j cipher hs key b bs nb false ha ≡ none =
        ground (arith, bytes_eq_iff a.id b.id, bytes_eq_iff a.id []) in
      let (k, e, p, u) =
        side hs key a as' na true hb ga gb ra rb s cb wa ob wb sb fine_b ya ready yb
          (record { same_key = refl; same_dir = refl; same_count = refl }) in
      let (k', e', p', u') =
        side hs key b bs nb false ha gb ga rb ra t ca wb oa wa sa fine_a yb ready ya
          (record { same_key = refl; same_dir = refl; same_count = refl }) in
      (
        record ca { cipher = k },
        record cb { cipher = k' },
        e,
        e',
        refl,
        refl,
        record {
          same_key = u.key_same ∙ p'.same_key;
          same_dir = u.dir_same ∙ p'.same_dir;
          same_count = u.count_same ∙ p'.same_count;
        },
        record {
          same_key = u'.key_same ∙ p.same_key;
          same_dir = u'.dir_same ∙ p.same_dir;
          same_count = u'.count_same ∙ p.same_count;
        },
      )
