-- ===== src/Node/Files/Delivery/Ends.antt =====
-- The first and the last message of a transfer at the receiver.
use void_bridge.Base.{
  ◌&&◌, signed64, ℕ, ◌^◌, ◌<◌, ◌≡◌, refl, sym, ap, true, false, List, [], ◌∷◌, none, some, Str, pos,
  str_eq, int_eq, ◌==◌, length, arith, bytes_eq_iff, int_lt, subst, eq_refl,
}
use void_bridge.Base.Dict.{insert, delete, lookup-insert}
use void_bridge.Protocol.Message.{Message, MsgType}
use void_bridge.Protocol.Crypto.{Aead, IsAead, Hashes}
use void_bridge.Protocol.Seal.{open_file, seal_file, aead_nonce_size}
use void_bridge.Protocol.Seal.Binding.{open_file-seal_file_same}
use void_bridge.Protocol.Message.{Identity}
use void_bridge.Node.Files.{
  FileMeta, MetaCodec, IsMetaCodec, Receiver, FileEffect, begins, commits, received, sends,
  FileOutside, begun, on_start, on_end, on_plain, handle_file, ack_message,
}
use void_bridge.Node.Files.Sender.{Progress, header}
use void_bridge.Node.Files.Effects.{signed-small, int_lt-pos, start}
use void_bridge.Node.Files.Delivery.Chunks.{Matches, Took}

module _ (hs : Hashes) (j : MetaCodec) (jlaws : IsMetaCodec j) (cipher : Aead)
    (laws : IsAead cipher) (key : Str) (me : Identity) (id to : Str) (o : FileOutside) (l : ℕ)
    (no_write_error : o.write_error ≡ none) where
  -- The first message opens the transfer.
  pub start-step :
      (nonce : Str) (meta : FileMeta) (r : Receiver) (n : ℕ)
      → length nonce ≡ aead_nonce_size
      → r.me_id ≡ to
      → r.content_key ≡ key
      → r.can_receive ≡ true
      → o.begin_error ≡ none
      → (j.is_utf8 meta.name && j.is_utf8 meta.mime) ≡ true
      → meta.size ≡ pos n
      → let m =
          seal_file cipher key nonce
            (header cipher key me id to MsgType.file_start 0)
            (j.print meta) in
        handle_file hs j cipher o l m r ≡ (
          record r { incoming = insert id (begun o l m meta) r.incoming },
          begins id meta (record { id = me.id; name = me.name }) ∷ [],
        )
  unfolding handle_file on_plain on_start seal_file
  start-step nonce meta r n ns at same can ok text size =
      let m =
        seal_file cipher key nonce (header cipher key me id to MsgType.file_start 0)
          (j.print meta) in
      let opened : open_file cipher r.content_key m ≡ some (j.print meta) =
        subst (λ k. open_file cipher k m ≡ some (j.print meta)) (sym same)
          (open_file-seal_file_same cipher laws key nonce ns
            (header cipher key me id to MsgType.file_start 0) (j.print meta)) in
      let mine : (to == r.me_id) ≡ true = rw at (eq_refl to) in
      let fits : int_lt meta.size (pos 0) ≡ false = rw size (int_lt-pos n 0 (omega arith)) in
      rw (handle_file, mine, opened, on_plain, on_start, can, jlaws.parse-print meta text, fits, ok)
        (ap
          (λ c. (
            record r { can_receive = c; incoming = insert id (begun o l m meta) r.incoming },
            begins id meta (record { id = me.id; name = me.name }) ∷ [],
          ))
          can)

  abbrev pub end_message : Str → Progress → Message
  end_message nonce p =
      seal_file cipher key nonce (header cipher key me id to MsgType.file_end p.seq)
        (hs.sha256_hex p.summed)

  -- The last message has the file stored and acknowledged.
  pub end-step :
      (nonce : Str) (p : Progress) (meta : FileMeta) (r : Receiver)
      (v : (Matches hs j jlaws cipher laws key me id to o l no_write_error) p meta r)
      → length nonce ≡ aead_nonce_size
      → o.commit_error ≡ none
      → signed64 p.total ≡ meta.size
      → handle_file hs j cipher o l (end_message nonce p) r ≡ (
        record r { incoming = delete id r.incoming },
        commits id
            ∷ received v.transfer.meta v.transfer.from none
            ∷ sends l (ack_message r.me_id (end_message nonce p) [])
            ∷ [],
      )
  unfolding handle_file on_plain on_end seal_file
  end-step nonce p meta r v ns ok size =
      let m = end_message nonce p in
      let opened : open_file cipher r.content_key m ≡ some (hs.sha256_hex p.summed) =
        subst (λ k. open_file cipher k m ≡ some (hs.sha256_hex p.summed)) (sym v.same_key)
          (open_file-seal_file_same cipher laws key nonce ns
            (header cipher key me id to MsgType.file_end p.seq) (hs.sha256_hex p.summed)) in
      let mine : (to == r.me_id) ≡ true = rw v.at_me (eq_refl to) in
      let next : (signed64 p.seq == signed64 v.transfer.next) ≡ true =
        rw v.same_next (eq_refl (signed64 p.seq)) in
      let full : (signed64 v.transfer.got == v.transfer.meta.size) ≡ true =
        rw (v.same_got, v.same_meta, size) (eq_refl meta.size) in
      let same : (hs.sha256_hex p.summed == hs.sha256_hex v.transfer.summed) ≡ true =
        rw v.same_sum (eq_refl (hs.sha256_hex p.summed)) in
      rw (handle_file, mine, opened, on_plain, v.known, on_end, next, full, same, ok) refl

  -- The transfer in progress: what the receiver made of the first message.
  pub started-Matches :
      (nonce : Str) (meta : FileMeta) (r : Receiver)
      → r.me_id ≡ to
      → r.content_key ≡ key
      → let m =
          seal_file cipher key nonce
            (header cipher key me id to MsgType.file_start 0)
            (j.print meta) in
        (Matches hs j jlaws cipher laws key me id to o l no_write_error) start meta
          (record r { incoming = insert id (begun o l m meta) r.incoming })
  started-Matches nonce meta r at same = record {
    at_me = at;
    same_key = same;
    transfer =
        begun o l
          (seal_file cipher key nonce (header cipher key me id to MsgType.file_start 0)
            (j.print meta))
          meta;
    known = ground (
      arith,
      lookup-insert id id
          (begun o l
            (seal_file cipher key nonce (header cipher key me id to MsgType.file_start 0)
              (j.print meta))
            meta)
          r.incoming,
      bytes_eq_iff id id,
    );
    same_next = refl;
    same_got = refl;
    same_sum = refl;
    same_meta = refl;
  }

  pub Took-full :
      (c : Str) (p : Progress) (meta : FileMeta) (r : Receiver) (x : Receiver × List FileEffect)
      → (Took hs j jlaws cipher laws key me id to o l no_write_error) c start p meta r x
      → meta.size ≡ pos (length c)
      → length c < 2 ^ 63
      → signed64 p.total ≡ meta.size
  Took-full c p meta r x u size small =
      let counted' : p.total ≡ length c = ground (arith, u.counted_all) in
      rw (size, counted') (signed-small (length c) small)
