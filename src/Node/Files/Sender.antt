-- ===== src/Node/Files/Sender.antt =====
-- internal/node/files.go: `linkTo`, and `SendFile` as a loop over the pieces that the file gives.
use void_bridge.Base.{
  signed64, plus64, ℕ, ◌+◌, Bool, true, false, List, [], ◌∷◌, ◌++◌, Option, none, some, Str, ℤ,
  str_eq, int_eq, ◌==◌, if◌then◌else◌, length, codes,
}
use void_bridge.Protocol.Message.{Identity, Message, MsgType, PeerInfo, blank}
use void_bridge.Protocol.Crypto.{Aead, Hashes}
use void_bridge.Protocol.Seal.{seal_file}
use void_bridge.Node.State.{Node, LinkInfo}
use void_bridge.Node.Files.{FileMeta, MetaCodec}

abbrev pub link_with : Str → List (ℕ × LinkInfo) → Option ℕ
link_with id [] = none
link_with id ((l, info) ∷ ls) = if info.peer_id == id then some l else link_with id ls

abbrev pub lists_peer : Str → List PeerInfo → Bool
lists_peer id [] = false
lists_peer id (p ∷ ps) = if p.id == id then true else lists_peer id ps

abbrev pub relay_to : Str → List (ℕ × List PeerInfo) → Option ℕ
relay_to id [] = none
relay_to id ((l, devs) ∷ rs) = if lists_peer id devs then some l else relay_to id rs

-- `linkTo`: a direct link first.
unfoldable pub link_to : Str → Node → Option ℕ
link_to id n = elim (link_with id n.links) [ some l ↦ some l | none ↦ relay_to id n.remote ]

-- What reading the file gives: full pieces, then a last one, which may be empty, or an error.
pub data Pieces : Type 0 where
  last : Str → Pieces
  piece : Str → Pieces → Pieces
  broken : Str → Str → Pieces

-- What the outside answers around one message: whether the sender was cancelled, an answer that
-- came before the message, whether the link refuses it, and the random nonce.
pub record Answer : Type 0 where
  pub cancelled : Option Str
  pub ack : Option Str
  pub send_error : Option Str
  pub nonce : Str

-- What ends the wait for the answer.
pub data Final : Type 0 where
  answered : Str → Final
  timed_out : Final
  stopped : Str → Final

pub data SendError : Type 0 where
  unreachable no_answer : SendError
  refused link_failed cancelled unreadable : Str → SendError
  changed : ℤ → ℤ → SendError

-- What the sender has done: its messages, and either an error or what the loop ends with.
pub data Sent {ℓ} (A : Type ℓ) : Type ℓ where
  sent : List Message → A → Sent A
  failed : List Message → SendError → Sent A

-- The counters of the loop and what was hashed.
pub record Progress : Type 0 where
  pub seq : ℕ
  pub total : ℕ
  pub summed : Str

infixl 5 ◌>>=◌ ◌>>◌
abbrev pub ◌>>=◌ {ℓ κ} : {A : Type ℓ} {B : Type κ} → Sent A → (A → Sent B) → Sent B
failed ms e >>= f = failed ms e
sent ms a >>= f = elim (f a) [
  | sent ms' b ↦ sent (ms ++ ms') b
  | failed ms' e ↦ failed (ms ++ ms') e
]

abbrev pub ◌>>◌ {ℓ} : {B : Type ℓ} → Sent (Unit {0}) → Sent B → Sent B
m >> k = m >>= λ _. k

abbrev pub given_up : Str → SendError
given_up e = refused (if e == [] then codes "the other device stopped the transfer" else e)

module _ (cipher : Aead) (key : Str) (me : Identity) (id to : Str) where
  abbrev pub header : MsgType → ℕ → Message
  header y seq = record (blank y) {
    id = id;
    origin = me.id;
    origin_name = me.name;
    to = to;
    seq = signed64 seq;
  }

  -- The closure `msg`.
  unfoldable pub send_message : Answer → MsgType → ℕ → Str → Sent (Unit {0})
  send_message a y seq plain = elim a.ack [
    | some e ↦ failed [] (given_up e)
    | none ↦
        let m = seal_file cipher key a.nonce (header y seq) plain in
        elim a.send_error [ none ↦ sent (m ∷ []) tt | some e ↦ failed (m ∷ []) (link_failed e) ]
  ]

  unfoldable pub check : Option Str → Sent (Unit {0})
  check none = sent [] tt
  check (some e) = failed [] (cancelled e)

  abbrev pub advance : Str → Progress → Progress
  advance b p = record {
    seq = plus64 p.seq 1;
    total = plus64 p.total (length b);
    summed = p.summed ++ b;
  }

  -- A piece with bytes goes out as a chunk.
  unfoldable pub send_piece : Answer → Str → Progress → Sent Progress
  unfolding send_message
  send_piece a [] p = sent [] p
  send_piece a (x ∷ b) p =
      send_message a MsgType.file_chunk p.seq (x ∷ b) >>= λ _. sent [] (advance (x ∷ b) p)

  -- The loop; the answers are numbered by its rounds.
  unfoldable pub send_pieces : (ℕ → Answer) → ℕ → Pieces → Progress → Sent Progress
  unfolding check send_piece
  send_pieces answers i (last b) p = check (answers i).cancelled >>= λ _. send_piece (answers i) b p
  send_pieces answers i (piece b rest) p = check (answers i).cancelled >>= λ _.
      (send_piece (answers i) b p >>= send_pieces answers (i + 1) rest)
  send_pieces answers i (broken b e) p = check (answers i).cancelled >>= λ _.
      (send_piece (answers i) b p >>= λ _. failed [] (unreadable e))

  -- The wait for the answer.
  unfoldable pub await : Final → Sent (Unit {0})
  await (answered e) = if e == [] then sent [] tt else failed [] (refused e)
  await timed_out = failed [] no_answer
  await (stopped e) = failed [] (cancelled e)

  module _ (hs : Hashes) (j : MetaCodec) where
    abbrev pub start_progress : Progress
    start_progress = record { seq = 0; total = 0; summed = [] }

    -- `SendFile` after its loop.
    unfoldable pub finish : Answer → Final → FileMeta → Progress → Sent (Unit {0})
    unfolding send_message await
    finish end final meta p =
        if signed64 p.total == meta.size
        then (send_message end MsgType.file_end p.seq (hs.sha256_hex p.summed) >> await final)
        else failed [] (changed (signed64 p.total) meta.size)

    -- `SendFile` from its first message on: the answers to the first and the last message, to the
    -- rounds of the loop, and the final one.
    unfoldable pub send_file :
        Answer → (ℕ → Answer) → Answer → Final → FileMeta → Pieces → Sent (Unit {0})
    unfolding send_message send_pieces finish
    send_file first answers end final meta pieces = do
      send_message first MsgType.file_start 0 (j.print meta)
      p ← send_pieces answers 0 pieces start_progress
      finish end final meta p

    -- `SendFile`
    unfoldable pub send_file_to :
        Node → Answer → (ℕ → Answer) → Answer → Final → FileMeta → Pieces → Sent (Unit {0})
    unfolding send_file link_to
    send_file_to n first answers end final meta pieces = elim (link_to to n) [
      | none ↦ failed [] unreachable
      | some l ↦ send_file first answers end final meta pieces
    ]
