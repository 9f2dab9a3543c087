-- ===== src/Tests/Files.antt =====
-- A file of three bytes, sent in two pieces.
use void_bridge.Base.{
  ◌≡◌, refl, inl, zero, suc, true, List, [], ◌∷◌, ◌++◌, Option, none, some, Str, ℤ, pos, negsuc,
  arith, codes, str_eq, length, take, drop, take-length-append, drop-length-append, format_int,
  decimal, int_lt, bytes_eq, int_beq,
}
use void_bridge.Base.Dict.{lookup, insert}
use void_bridge.Protocol.Message.{Message, MsgType}
use void_bridge.Protocol.Seal.{seal_file, open_file, file_aad, type_name}
use void_bridge.Protocol.Message.{Identity}
use void_bridge.Node.Files.{
  FileMeta, MetaCodec, IsMetaCodec, Receiver, FileOutside, handle_file, on_plain, on_start,
  on_chunk, on_end,
}
use void_bridge.Node.Files.Commit.{
  FileArrival, handle_files, handle_files-Stored, IsStored, contents,
}
use void_bridge.Node.Files.Sender.{
  Pieces, last, piece, Answer, answered, Sent, sent, send_file, send_pieces, send_piece,
  send_message, check, finish, await,
}
use void_bridge.Node.Files.Sender
use void_bridge.Node.Files.Effects.{content, IsCalm}
use void_bridge.Node.Files.Delivery.{IsDelivered, send_file-IsDelivered}
use void_bridge.Node.Files.Delivery.Chunks.{run}
use void_bridge.Tests.Cipher.{toy, toy-IsAead, plain_hashes, strip, strip_prefix}

print_size : ℤ → Str → Str
print_size (pos n) s = 0 ∷ n ∷ s
print_size (negsuc n) s = 1 ∷ n ∷ s

abbrev toy_print : FileMeta → Str
toy_print m = print_size m.size (length m.name ∷ (m.name ++ m.mime))

parse_rest : ℤ → Str → Option FileMeta
parse_rest x [] = none
parse_rest x (k ∷ s) = some (record { name = take k s; size = x; mime = drop k s })

parse_size : Str → Option FileMeta
parse_size [] = none
parse_size (_ ∷ []) = none
parse_size (zero ∷ n ∷ s) = parse_rest (pos n) s
parse_size (suc _ ∷ n ∷ s) = parse_rest (negsuc n) s

abbrev codec : MetaCodec
codec = record { is_utf8 = λ s. true; print = toy_print; parse = parse_size }

parse-print' :
    (x : ℤ) (name mime : Str)
    → parse_size (print_size x (length name ∷ (name ++ mime)))
      ≡ some (record { name = name; size = x; mime = mime })
unfolding parse_size parse_rest print_size
parse-print' (pos n) name mime =
    rw (take-length-append name mime, drop-length-append name mime) refl
parse-print' (negsuc n) name mime =
    rw (take-length-append name mime, drop-length-append name mime) refl

codec-IsMetaCodec : IsMetaCodec codec
codec-IsMetaCodec = record { parse-print = λ m u. parse-print' m.size m.name m.mime }

abbrev key : Str
key = codes "k"

abbrev pc : Identity
pc = record { id = codes "pc"; name = codes "PC"; kind = codes "windows" }

abbrev id : Str
id = codes "f1"

abbrev phone : Str
phone = codes "ph"

abbrev nonce : Str
nonce = codes "123456789012"

abbrev note : FileMeta
note = record { name = codes "a.txt"; size = pos 3; mime = codes "t" }

abbrev pieces : Pieces
pieces = piece (codes "hi") (piece [] (last (codes "!")))

abbrev calm : Answer
calm = record { cancelled = none; ack = none; send_error = none; nonce = nonce }

abbrev receiver : Receiver
receiver = record { me_id = phone; content_key = key; can_receive = true; incoming = []; acks = [] }

abbrev outside : FileOutside
outside = record { now = 7; begin_error = none; write_error = none; commit_error = none }

calm-IsCalm : IsCalm calm
calm-IsCalm = record { goes_on = refl; unanswered = refl; taken = refl; nonce_size = refl }

send_file-IsDelivered_example :
    (ms : List Message) × (send_file toy key pc id phone plain_hashes codec calm
        (λ _. calm)
        calm
        (answered [])
        note
        pieces
      ≡ sent ms tt)
    × IsDelivered plain_hashes codec codec-IsMetaCodec toy toy-IsAead key pc id phone outside 4 refl
        (content pieces)
        receiver
        (run plain_hashes codec codec-IsMetaCodec toy toy-IsAead key pc id phone outside 4 refl ms
          receiver)
send_file-IsDelivered_example =
    send_file-IsDelivered plain_hashes codec codec-IsMetaCodec toy toy-IsAead key pc id phone
      outside 4 refl calm (λ _. calm) calm note pieces receiver calm-IsCalm (λ _. calm-IsCalm)
      calm-IsCalm tt refl (omega arith) refl refl refl refl refl refl

abbrev sealed : MsgType → ℤ → Str → Message
sealed y n b =
    seal_file toy key nonce (record (Sender.header toy key pc id phone y 0) { seq = n }) b

abbrev before : List (FileArrival plain_hashes codec toy)
before =
    record {
      outside = outside;
      link = 4;
      message = sealed MsgType.file_start (pos 0) (toy_print note);
    }
    ∷ record {
      outside = outside;
      link = 4;
      message = sealed MsgType.file_chunk (pos 0) (codes "hi!");
    }
    ∷ []

abbrev ends : Message
ends = sealed MsgType.file_end (pos 1) (codes "hi!")

handle_files-Stored_example :
    IsStored plain_hashes toy ends
      (handle_files plain_hashes codec toy before receiver).0
      (λ k. contents k (handle_files plain_hashes codec toy before receiver).1 none)
      id
unfolding handle_files handle_file on_plain on_start on_chunk on_end seal_file open_file file_aad
    type_name take drop format_int decimal strip strip_prefix parse_size parse_rest print_size
    int_lt bytes_eq lookup insert int_beq
handle_files-Stored_example =
    handle_files-Stored plain_hashes codec toy before receiver outside 4 ends id refl (inl refl)
