-- ===== src/Node/Files/Delivery/Loop.antt =====
-- The loop of `SendFile`, whose messages the receiver takes.
use void_bridge.Base.{
  ℕ, ◌+◌, ◌^◌, ◌<◌, ◌≤◌, ◌≡◌, refl, sym, ap, ◌∙◌, List, [], ◌∷◌, ◌++◌, Option, none, Str, pos,
  str_eq, int_eq, length, arith, length-append, subst, append_assoc, append-nil,
}
use void_bridge.Protocol.Message.{Message, MsgType}
use void_bridge.Protocol.Crypto.{Aead, IsAead, Hashes}
use void_bridge.Protocol.Seal.{seal_file}
use void_bridge.Protocol.Message.{Identity}
use void_bridge.Node.Files.{FileMeta, MetaCodec, IsMetaCodec, Receiver, FileOutside, handle_file}
use void_bridge.Node.Files.Commit.{handle_files}
use void_bridge.Node.Files.Sender.{
  Pieces, last, piece, broken, Answer, Sent, sent, Progress, ◌>>=◌, header, send_message, check,
  advance, send_piece, send_pieces,
}
use void_bridge.Node.Files.Effects.{content, IsComplete, IsCalm, sent-bind}
use void_bridge.Node.Files.Delivery.Chunks.{
  Matches, chunk_message, run, Took, Took-nil, chunk-Took, Took-append,
}

module _ (hs : Hashes) (j : MetaCodec) (jlaws : IsMetaCodec j) (cipher : Aead)
    (laws : IsAead cipher) (key : Str) (me : Identity) (id to : Str) (o : FileOutside) (l : ℕ)
    (no_write_error : o.write_error ≡ none) where
  pub calm-send_message :
      (a : Answer) (y : MsgType) (seq : ℕ) (plain : Str)
      → IsCalm a
      → send_message cipher key me id to a y seq plain
        ≡ sent (seal_file cipher key a.nonce (header cipher key me id to y seq) plain ∷ []) tt
  unfolding send_message
  calm-send_message a y seq plain c = rw (send_message, c.unanswered, c.taken) refl

  -- The loop sends messages that the receiver takes.
  pub record Looped (i : ℕ) (answers : ℕ → Answer) (pieces : Pieces) (p : Progress)
      (meta : FileMeta) (r : Receiver) : Type 0 where
    pub messages : List Message
    pub after : Progress
    pub loop_sent : send_pieces cipher key me id to answers i pieces p ≡ sent messages after
    pub took :
        (Took hs j jlaws cipher laws key me id to o l no_write_error)
          (content pieces)
          p
          after
          meta
          r
          ((run hs j jlaws cipher laws key me id to o l no_write_error) messages r)

  pub run-append :
      (ms ms' : List Message) (r : Receiver)
      → (run hs j jlaws cipher laws key me id to o l no_write_error) (ms ++ ms') r ≡ (
        ((run hs j jlaws cipher laws key me id to o l no_write_error) ms'
            ((run hs j jlaws cipher laws key me id to o l no_write_error) ms r).0).0,
        ((run hs j jlaws cipher laws key me id to o l no_write_error) ms r).1
            ++ ((run hs j jlaws cipher laws key me id to o l no_write_error) ms'
                ((run hs j jlaws cipher laws key me id to o l no_write_error) ms r).0).1,
      )
  unfolding handle_files
  run-append [] ms' r = refl
  run-append (m ∷ ms) ms' r =
      let h = handle_file hs j cipher o l m r in
      let a = (run hs j jlaws cipher laws key me id to o l no_write_error) ms h.0 in
      let b = (run hs j jlaws cipher laws key me id to o l no_write_error) ms' a.0 in
      ap (λ x. (x.0, h.1 ++ x.1)) (run-append ms ms' h.0)
      ∙ ap (λ z. (b.0, z)) (sym (append_assoc h.1 a.1 b.1))

  check-sent :
      (c : Option Str) (k : Sent Progress) (ms : List Message) (p : Progress)
      → c ≡ none
      → k ≡ sent ms p
      → (check cipher key me id to c >>= λ _. k) ≡ sent ms p
  unfolding check
  check-sent c k ms p e f = rw (e, check, f) refl

  -- One piece is sent and taken.
  record PieceTaken (a : Answer) (b : Str) (p : Progress) (meta : FileMeta) (r : Receiver)
      : Type 0 where
    messages : List Message
    after : Progress
    piece_sent : send_piece cipher key me id to a b p ≡ sent messages after
    took :
        (Took hs j jlaws cipher laws key me id to o l no_write_error) b p after meta r
          ((run hs j jlaws cipher laws key me id to o l no_write_error) messages r)

  piece-PieceTaken :
      (a : Answer) (b : Str) (p : Progress) (meta : FileMeta) (r : Receiver) (n : ℕ)
      → IsCalm a
      → (Matches hs j jlaws cipher laws key me id to o l no_write_error) p meta r
      → meta.size ≡ pos n
      → n < 2 ^ 63
      → p.total + length b ≤ n
      → PieceTaken a b p meta r
  unfolding send_piece handle_files
  piece-PieceTaken a [] p meta r n c v size small fits = record {
    messages = [];
    after = p;
    piece_sent = refl;
    took = (Took-nil hs j jlaws cipher laws key me id to o l no_write_error) p meta r v;
  }
  piece-PieceTaken a (x ∷ b) p meta r n c v size small fits = record {
    messages =
        (chunk_message hs j jlaws cipher laws key me id to o l no_write_error) a.nonce p (x ∷ b)
        ∷ [];
    after = advance cipher key me id to (x ∷ b) p;
    piece_sent = rw (calm-send_message a MsgType.file_chunk p.seq (x ∷ b) c) refl;
    took =
        let h =
          handle_file hs j cipher o l
            ((chunk_message hs j jlaws cipher laws key me id to o l no_write_error) a.nonce p
              (x ∷ b))
            r in
        subst
          ((Took hs j jlaws cipher laws key me id to o l no_write_error) (x ∷ b) p
            (advance cipher key me id to (x ∷ b) p) meta r)
          (ap (λ z. (h.0, z)) (sym (append-nil h.1)))
          ((chunk-Took hs j jlaws cipher laws key me id to o l no_write_error) a.nonce p meta
            (x ∷ b) r n v c.nonce_size size small fits);
  }

  pub pieces-Looped :
      (answers : ℕ → Answer) (i : ℕ) (pieces : Pieces) (p : Progress) (meta : FileMeta)
      (r : Receiver) (n : ℕ)
      → ((k : ℕ) → IsCalm (answers k))
      → IsComplete pieces
      → (Matches hs j jlaws cipher laws key me id to o l no_write_error) p meta r
      → meta.size ≡ pos n
      → n < 2 ^ 63
      → p.total + length (content pieces) ≤ n
      → Looped i answers pieces p meta r
  unfolding send_pieces
  pieces-Looped answers i (last b) p meta r n calm done v size small fits =
      let c = piece-PieceTaken (answers i) b p meta r n (calm i) v size small fits in
      record {
        messages = c.messages;
        after = c.after;
        loop_sent =
            check-sent (answers i).cancelled (send_piece cipher key me id to (answers i) b p)
              c.messages c.after (calm i).goes_on c.piece_sent;
        took = c.took;
      }
  pieces-Looped answers i (piece b rest) p meta r n calm done v size small fits =
      let fits1 : p.total + length b ≤ n = ground (arith, length-append b (content rest)) in
      let c = piece-PieceTaken (answers i) b p meta r n (calm i) v size small fits1 in
      let fits2 : c.after.total + length (content rest) ≤ n =
        ground (arith, c.took.counted_all, length-append b (content rest)) in
      let d =
        pieces-Looped answers (i + 1) rest c.after meta
          ((run hs j jlaws cipher laws key me id to o l no_write_error) c.messages r).0 n calm done
          c.took.matched size small fits2 in
      record {
        messages = c.messages ++ d.messages;
        after = d.after;
        loop_sent =
            check-sent (answers i).cancelled
              (send_piece cipher key me id to (answers i) b p
                >>= send_pieces cipher key me id to answers (i + 1) rest)
              (c.messages ++ d.messages) d.after (calm i).goes_on
              (sent-bind (send_piece cipher key me id to (answers i) b p)
                (send_pieces cipher key me id to answers (i + 1) rest) c.messages d.messages c.after
                d.after c.piece_sent d.loop_sent);
        took =
            subst
              ((Took hs j jlaws cipher laws key me id to o l no_write_error) (b ++ content rest) p
                d.after meta r)
              (sym (run-append c.messages d.messages r))
              ((Took-append hs j jlaws cipher laws key me id to o l no_write_error) b (content rest)
                p c.after d.after meta r
                ((run hs j jlaws cipher laws key me id to o l no_write_error) c.messages r)
                ((run hs j jlaws cipher laws key me id to o l no_write_error) d.messages
                  ((run hs j jlaws cipher laws key me id to o l no_write_error) c.messages r).0)
                c.took d.took);
      }
  pieces-Looped answers i (broken b e) p meta r n calm done v size small fits = absurd done
