-- ===== src/Node/Files/Delivery.antt =====
-- A file that is sent arrives: `SendFile` at one device and `handleFile` at the other.
pub mod Chunks
mod Loop
mod Ends
use void_bridge.Base.{
  ◌&&◌, signed64, plus64, ℕ, ◌+◌, ◌^◌, ◌<◌, ◌≤◌, ◌≡◌, ◌≢◌, refl, sym, ap, ◌∙◌, true, false, List,
  [], ◌∷◌, ◌++◌, Option, none, some, Str, pos, str_eq, int_eq, ◌==◌, if◌then◌else◌, length, arith,
  inl, inr, bytes_eq_iff, Bool-cases, length-append, int_lt, subst, map, eq_refl, append_assoc,
  append-nil,
}
use void_bridge.Base.Dict.{lookup, insert, delete, lookup-insert, lookup-delete}
use void_bridge.Protocol.Message.{Message, MsgType}
use void_bridge.Protocol.Crypto.{Aead, IsAead, Hashes}
use void_bridge.Protocol.Seal.{open_file, seal_file, aead_nonce_size}
use void_bridge.Protocol.Seal.Binding.{open_file-seal_file_same}
use void_bridge.Protocol.Message.{Identity}
use void_bridge.Node.Files.{
  FileMeta, MetaCodec, IsMetaCodec, Incoming, Receiver, FileEffect, begins, writes, commits,
  received, progress, sends, FileOutside, begun, on_start, on_chunk, on_end, on_plain, handle_file,
  counted, ack_message,
}
use void_bridge.Node.Files.Commit.{contents, contents-append, FileArrival, handle_files}
use void_bridge.Node.Files.Sender.{
  Pieces, last, piece, broken, Answer, answered, Sent, sent, Progress, ◌>>=◌, header, send_message,
  check, advance, send_piece, send_pieces, await, finish, send_file,
}
use void_bridge.Node.Files.Effects.{
  content, IsComplete, IsCalm, stored, acked, total-fits, mod-fits, signed-small, int_lt-pos,
  stored-append, acked-append, sent-bind, start,
}
use void_bridge.Node.Files.Delivery.Chunks.{run, Took}
use void_bridge.Node.Files.Delivery.Loop.{calm-send_message, run-append, pieces-Looped}
use void_bridge.Node.Files.Delivery.Ends.{
  start-step, end_message, end-step, started-Matches, Took-full,
}

module _ (hs : Hashes) (j : MetaCodec) (jlaws : IsMetaCodec j) (cipher : Aead)
    (laws : IsAead cipher) (key : Str) (me : Identity) (id to : Str) (o : FileOutside) (l : ℕ)
    (no_write_error : o.write_error ≡ none) where
  -- What a whole transfer does at the receiver.
  pub record IsDelivered (c : Str) (r : Receiver) (x : Receiver × List FileEffect) : Type 0 where
    pub stored_once : stored id x.1 none ≡ c ∷ []
    pub acked_once : acked id x.1 ≡ [] ∷ []
    pub forgotten :
        (k : Str) → lookup k x.0.incoming ≡ (if k == id then none else lookup k r.incoming)

  -- Three parts of a run: the opening, the chunks and the end.
  parts-IsDelivered :
      (first end : Str) (meta : FileMeta) (r : Receiver) (c : Str) (p : Progress)
      (x : Receiver × List FileEffect)
      → length first ≡ aead_nonce_size
      → length end ≡ aead_nonce_size
      → r.me_id ≡ to
      → r.content_key ≡ key
      → r.can_receive ≡ true
      → o.begin_error ≡ none
      → o.commit_error ≡ none
      → (j.is_utf8 meta.name && j.is_utf8 meta.mime) ≡ true
      → meta.size ≡ pos (length c)
      → length c < 2 ^ 63
      → let m =
          seal_file cipher key first
            (header cipher key me id to MsgType.file_start 0)
            (j.print meta) in
        (Took hs j jlaws cipher laws key me id to o l no_write_error) c start p meta
          (record r { incoming = insert id (begun o l m meta) r.incoming })
          x
        → let b = handle_file hs j cipher o l m r in
          let e =
            handle_file hs j cipher o l
              ((end_message hs j jlaws cipher laws key me id to o l no_write_error) end p)
              x.0 in
          IsDelivered c r (e.0, b.1 ++ (x.1 ++ e.1))
  unfolding seal_file
  parts-IsDelivered first end meta r c p x ns ns' at same can ok ok' text size small u =
      let m =
        seal_file cipher key first (header cipher key me id to MsgType.file_start 0)
          (j.print meta) in
      let v = u.matched in
      let got =
        (Took-full hs j jlaws cipher laws key me id to o l no_write_error) c p meta
          (record r { incoming = insert id (begun o l m meta) r.incoming }) x u size small in
      let rest =
        commits id
        ∷ received v.transfer.meta v.transfer.from none
        ∷ sends l (
            ack_message x.0.me_id
              ((end_message hs j jlaws cipher laws key me id to o l no_write_error) end p) [])
        ∷ [] in
      let wr : p.summed ≡ c = u.summed_all in
      let left : contents id x.1 (some []) ≡ some c = u.wrote_all ∙ ap some wr in
      rw
        (
          (start-step hs j jlaws cipher laws key me id to o l no_write_error) first meta r
              (length c) ns at same can ok text size,
          (end-step hs j jlaws cipher laws key me id to o l no_write_error) end p meta x.0 v ns' ok'
              got,
        )
        (record {
          stored_once =
              ap (λ t. stored id (x.1 ++ rest) (if t then some [] else none)) (eq_refl id)
              ∙ (stored-append id x.1 rest (some [])
                  ∙ rw (u.none_stored, left) (rw (eq_refl id) refl));
          acked_once = acked-append id x.1 rest ∙ rw u.none_acked (rw (eq_refl id) refl);
          forgotten = λ k. elim (Bool-cases (k == id)) [
            | inl e ↦
                ground
                  (arith, lookup-delete id k x.0.incoming, bytes_eq_iff id k, bytes_eq_iff k id)
            | inr e ↦
                let ne : k ≢ id = ground (arith, bytes_eq_iff k id) in
                rw e (
                  ground (
                    arith,
                    lookup-delete id k x.0.incoming,
                    bytes_eq_iff id k,
                    u.others k ne,
                    lookup-insert id k (begun o l m meta) r.incoming,
                  ))
          ];
        })

  finish-sent :
      (a : Answer) (p : Progress) (meta : FileMeta)
      → IsCalm a
      → signed64 p.total ≡ meta.size
      → finish cipher key me id to hs j a (answered []) meta p
        ≡ sent
            ((end_message hs j jlaws cipher laws key me id to o l no_write_error) a.nonce p ∷ [])
            tt
  unfolding finish await send_message
  finish-sent a p meta calm size =
      rw
        (
          finish,
          size,
          eq_refl meta.size,
          send_message,
          calm.unanswered,
          calm.taken,
          await,
          eq_refl {A = Str} [],
        )
        refl

  -- Sender and receiver together: if the sender is not cancelled and its link takes every message,
  -- the file is read to its end and is as long as was announced, its name and kind are UTF-8, and
  -- the receiver has the same key, is the device that the file goes to, takes files and can write
  -- them, then `SendFile` succeeds with the empty answer, and its messages, taken in order, have
  -- the receiver store the file's bytes, once, acknowledge it once, with no error, forget the
  -- transfer and leave every other one as it was. The pieces may be cut in any way.
  pub send_file-IsDelivered :
      (first : Answer) (answers : ℕ → Answer) (end : Answer) (meta : FileMeta) (pieces : Pieces)
      (r : Receiver)
      → IsCalm first
      → ((k : ℕ) → IsCalm (answers k))
      → IsCalm end
      → IsComplete pieces
      → meta.size ≡ pos (length (content pieces))
      → length (content pieces) < 2 ^ 63
      → r.me_id ≡ to
      → r.content_key ≡ key
      → r.can_receive ≡ true
      → o.begin_error ≡ none
      → o.commit_error ≡ none
      → (j.is_utf8 meta.name && j.is_utf8 meta.mime) ≡ true
      → (ms : List Message) × (send_file cipher key me id to hs j first answers end
            (answered [])
            meta
            pieces
          ≡ sent ms tt)
        × IsDelivered
            (content pieces)
            r
            ((run hs j jlaws cipher laws key me id to o l no_write_error) ms r)
  unfolding send_file handle_files
  send_file-IsDelivered first answers end meta pieces r calm calms calm' done size small at same can
        ok ok' text =
      let m =
        seal_file cipher key first.nonce (header cipher key me id to MsgType.file_start 0)
          (j.print meta) in
      let r' : Receiver = record r { incoming = insert id (begun o l m meta) r.incoming } in
      let h = handle_file hs j cipher o l m r in
      let opened : h.0 ≡ r' =
        ap (λ x. x.0)
          ((start-step hs j jlaws cipher laws key me id to o l no_write_error) first.nonce meta r
            (length (content pieces)) calm.nonce_size at same can ok text size) in
      let d =
        (pieces-Looped hs j jlaws cipher laws key me id to o l no_write_error) answers 0 pieces
          start meta r' (length (content pieces)) calms done
          ((started-Matches hs j jlaws cipher laws key me id to o l no_write_error) first.nonce meta
            r at same)
          size small (omega arith) in
      let tail =
        (end_message hs j jlaws cipher laws key me id to o l no_write_error) end.nonce d.after in
      let x = (run hs j jlaws cipher laws key me id to o l no_write_error) d.messages r' in
      let y = handle_file hs j cipher o l tail x.0 in
      let full =
        (Took-full hs j jlaws cipher laws key me id to o l no_write_error) (content pieces) d.after
          meta r' x d.took size small in
      let whole : (run hs j jlaws cipher laws key me id to o l no_write_error)
            (m ∷ (d.messages ++ tail ∷ [])) r
          ≡ (y.0, h.1 ++ (x.1 ++ y.1)) =
        ap
          (λ s. (
            ((run hs j jlaws cipher laws key me id to o l no_write_error) (d.messages ++ tail ∷ [])
                s).0,
            h.1
                ++ ((run hs j jlaws cipher laws key me id to o l no_write_error)
                    (d.messages ++ tail ∷ []) s).1,
          ))
          opened
        ∙ ap (λ z. (z.0, h.1 ++ z.1))
            ((run-append hs j jlaws cipher laws key me id to o l no_write_error) d.messages
              (tail ∷ []) r')
        ∙ ap (λ z. (y.0, h.1 ++ (x.1 ++ z))) (append-nil y.1) in
      (
        m ∷ (d.messages ++ tail ∷ []),
        sent-bind (send_message cipher key me id to first MsgType.file_start 0 (j.print meta))
            (λ _.
              send_pieces cipher key me id to answers 0 pieces start
              >>= finish cipher key me id to hs j end (answered []) meta)
            (m ∷ []) (d.messages ++ tail ∷ []) tt tt
            ((calm-send_message hs j jlaws cipher laws key me id to o l no_write_error) first
              MsgType.file_start 0 (j.print meta) calm)
            (sent-bind (send_pieces cipher key me id to answers 0 pieces start)
              (finish cipher key me id to hs j end (answered []) meta) d.messages (tail ∷ [])
              d.after tt d.loop_sent (finish-sent end d.after meta calm' full)),
        subst (IsDelivered (content pieces) r) (sym whole) (
            parts-IsDelivered first.nonce end.nonce meta r (content pieces) d.after x
              calm.nonce_size calm'.nonce_size at same can ok ok' text size small d.took),
      )
