-- ===== src/Node/Files/Delivery/Chunks.antt =====
-- What the receiver knows of a transfer, and what it does with the chunks.
use void_bridge.Base.{
  signed64, plus64, ℕ, ◌+◌, ◌^◌, ◌<◌, ◌≤◌, ◌≡◌, ◌≢◌, refl, sym, ap, ◌∙◌, true, false, List, [], ◌∷◌,
  ◌++◌, none, some, Str, pos, str_eq, int_eq, ◌==◌, length, arith, bytes_eq_iff, length-append,
  int_lt, subst, map, eq_refl, append_assoc, append-nil,
}
use void_bridge.Base.Dict.{lookup, insert, lookup-insert}
use void_bridge.Protocol.Message.{Message, MsgType}
use void_bridge.Protocol.Crypto.{Aead, IsAead, Hashes}
use void_bridge.Protocol.Seal.{open_file, seal_file, aead_nonce_size}
use void_bridge.Protocol.Seal.Binding.{open_file-seal_file_same}
use void_bridge.Protocol.Message.{Identity}
use void_bridge.Node.Files.{
  FileMeta, MetaCodec, IsMetaCodec, Incoming, Receiver, FileEffect, writes, progress, FileOutside,
  on_chunk, on_plain, handle_file, counted,
}
use void_bridge.Node.Files.Commit.{contents, contents-append, FileArrival, handle_files}
use void_bridge.Node.Files.Sender.{Progress, header, advance}
use void_bridge.Node.Files.Effects.{
  stored, acked, total-fits, mod-fits, int_lt-pos, stored-append, acked-append,
}

module _ (hs : Hashes) (j : MetaCodec) (jlaws : IsMetaCodec j) (cipher : Aead)
    (laws : IsAead cipher) (key : Str) (me : Identity) (id to : Str) (o : FileOutside) (l : ℕ)
    (no_write_error : o.write_error ≡ none) where
  -- The receiver knows the transfer as the sender does.
  pub record Matches (p : Progress) (meta : FileMeta) (r : Receiver) : Type 0 where
    pub at_me : r.me_id ≡ to
    pub same_key : r.content_key ≡ key
    pub transfer : Incoming
    pub known : lookup id r.incoming ≡ some transfer
    pub same_next : transfer.next ≡ p.seq
    pub same_got : transfer.got ≡ p.total
    pub same_sum : transfer.summed ≡ p.summed
    pub same_meta : transfer.meta ≡ meta

  abbrev pub chunk_message : Str → Progress → Str → Message
  chunk_message nonce p b =
      seal_file cipher key nonce (header cipher key me id to MsgType.file_chunk p.seq) b

  abbrev after_chunk : Str → Incoming → Receiver → Receiver
  after_chunk b i r = record r {
    incoming = insert id (record (counted o b i) { summed = i.summed ++ b }) r.incoming;
  }

  abbrev chunk_effects : Progress → Str → Incoming → List FileEffect
  chunk_effects p b i =
      writes id b ∷ progress id i.meta i.from (signed64 (plus64 i.got (length b))) ∷ []

  chunk-step :
      (nonce : Str) (p : Progress) (meta : FileMeta) (b : Str) (r : Receiver) (v : Matches p meta r)
      → length nonce ≡ aead_nonce_size
      → int_lt meta.size (signed64 (plus64 p.total (length b))) ≡ false
      → handle_file hs j cipher o l (chunk_message nonce p b) r
        ≡ (after_chunk b v.transfer r, chunk_effects p b v.transfer)
  unfolding handle_file on_plain on_chunk seal_file
  chunk-step nonce p meta b r v n fits =
      let m = chunk_message nonce p b in
      let opened : open_file cipher r.content_key m ≡ some b =
        subst (λ k. open_file cipher k m ≡ some b) (sym v.same_key)
          (open_file-seal_file_same cipher laws key nonce n
            (header cipher key me id to MsgType.file_chunk p.seq) b) in
      let mine : (to == r.me_id) ≡ true = rw v.at_me (eq_refl to) in
      let next : (signed64 p.seq == signed64 v.transfer.next) ≡ true =
        rw v.same_next (eq_refl (signed64 p.seq)) in
      let room : int_lt v.transfer.meta.size (signed64 (plus64 v.transfer.got (length b))) ≡ false =
        rw (v.same_meta, v.same_got) fits in
      rw (handle_file, mine, opened, on_plain, v.known, on_chunk, next, room, no_write_error)

  abbrev pub arrive : List Message → List (FileArrival hs j cipher)
  arrive ms = map (λ m. record { outside = o; link = l; message = m }) ms

  abbrev pub run : List Message → Receiver → Receiver × List FileEffect
  run ms r = handle_files hs j cipher (arrive ms) r

  -- The receiver, in state `r`, took the bytes `c` with the effects of `x`, from progress `p` to
  -- `p'`.
  pub record Took (c : Str) (p p' : Progress) (meta : FileMeta) (r : Receiver)
      (x : Receiver × List FileEffect) : Type 0 where
    pub matched : Matches p' meta x.0
    pub counted_all : p'.total ≡ p.total + length c
    pub summed_all : p'.summed ≡ p.summed ++ c
    pub wrote_all : contents id x.1 (some p.summed) ≡ some p'.summed
    pub none_stored : stored id x.1 (some p.summed) ≡ []
    pub none_acked : acked id x.1 ≡ []
    pub others : (k : Str) → k ≢ id → lookup k x.0.incoming ≡ lookup k r.incoming

  pub Took-nil :
      (p : Progress) (meta : FileMeta) (r : Receiver)
      → Matches p meta r
      → Took [] p p meta r (r, [])
  Took-nil p meta r v = record {
    matched = v;
    counted_all = omega arith;
    summed_all = sym (append-nil p.summed);
    wrote_all = refl;
    none_stored = refl;
    none_acked = refl;
    others = λ k n. refl;
  }

  pub chunk-Took :
      (nonce : Str) (p : Progress) (meta : FileMeta) (b : Str) (r : Receiver) (n : ℕ)
      → Matches p meta r
      → length nonce ≡ aead_nonce_size
      → meta.size ≡ pos n
      → n < 2 ^ 63
      → p.total + length b ≤ n
      → Took b p
          (advance cipher key me id to b p)
          meta
          r
          (handle_file hs j cipher o l (chunk_message nonce p b) r)
  chunk-Took nonce p meta b r n v ns size small fits =
      let t = v.transfer in
      let whole : signed64 (plus64 p.total (length b)) ≡ pos (p.total + length b) =
        total-fits p.total (length b) n small fits in
      let room : int_lt meta.size (signed64 (plus64 p.total (length b))) ≡ false =
        rw (size, whole) (int_lt-pos n (p.total + length b) fits) in
      subst (Took b p (advance cipher key me id to b p) meta r)
        (sym (chunk-step nonce p meta b r v ns room))
        (record {
          matched = record {
            at_me = v.at_me;
            same_key = v.same_key;
            transfer = record (counted o b t) { summed = t.summed ++ b };
            known = ground (
              arith,
              lookup-insert id id (record (counted o b t) { summed = t.summed ++ b }) r.incoming,
              bytes_eq_iff id id,
            );
            same_next = ap (λ z. plus64 z 1) v.same_next;
            same_got = ap (λ z. plus64 z (length b)) v.same_got;
            same_sum = ap (λ z. z ++ b) v.same_sum;
            same_meta = v.same_meta;
          };
          counted_all = mod-fits (p.total + length b) n small fits;
          summed_all = refl;
          wrote_all = rw (eq_refl id) refl;
          none_stored = refl;
          none_acked = refl;
          others = λ k ne. ground (
            arith,
            lookup-insert id k (record (counted o b t) { summed = t.summed ++ b }) r.incoming,
            bytes_eq_iff id k,
          );
        })

  pub Took-append :
      (c c' : Str) (p p' q : Progress) (meta : FileMeta) (r : Receiver)
      (x y : Receiver × List FileEffect)
      → Took c p p' meta r x
      → Took c' p' q meta x.0 y
      → Took (c ++ c') p q meta r (y.0, x.1 ++ y.1)
  Took-append c c' p p' q meta r x y u v = record {
    matched = v.matched;
    counted_all =
        v.counted_all ∙ ap (λ z. z + length c') u.counted_all ∙ ground (arith, length-append c c');
    summed_all = v.summed_all ∙ ap (λ z. z ++ c') u.summed_all ∙ append_assoc p.summed c c';
    wrote_all = contents-append id x.1 y.1 (some p.summed) ∙ rw u.wrote_all v.wrote_all;
    none_stored =
        stored-append id x.1 y.1 (some p.summed) ∙ rw (u.none_stored, u.wrote_all) v.none_stored;
    none_acked = acked-append id x.1 y.1 ∙ rw u.none_acked v.none_acked;
    others = λ k n. v.others k n ∙ u.others k n;
  }
