-- ===== src/Tests/Seal.antt =====
-- Sealed clips and file chunks, on a key and two texts.
use void_bridge.Base.{
  ◌≡◌, refl, false, [], some, Str, pos, codes, str_eq, format_int, decimal, take, drop,
}
use void_bridge.Protocol.Message.{Message, MsgType, blank, is_file}
use void_bridge.Protocol.Seal.{
  seal_clip, open_clip, seal_file, open_file, clip_aad, file_aad, type_name,
}
use void_bridge.Protocol.Seal.Binding
use void_bridge.Clipboard.{Content, clip_text}
use void_bridge.Tests.Cipher.{toy, strip, strip_prefix}

program : Unit {0}
unfolding seal_clip open_clip seal_file open_file clip_aad file_aad type_name format_int decimal
    take drop strip strip_prefix is_file
program = tt

abbrev pub key : Str
key = codes "k"

abbrev pub nonce : Str
nonce = codes "123456789012"

abbrev pub header : Message
header = record (blank MsgType.clip) {
  id = codes "a1";
  origin = codes "pc";
  time = pos 5;
  clip_type = clip_text;
}

abbrev pub later_header : Message
later_header = record header { id = codes "b2"; time = pos 7 }

abbrev pub hi : Content
hi = record { type = clip_text; text = codes "hi"; image = []; mime = []; sensitive = false }

abbrev pub yo : Content
yo = record hi { text = codes "yo" }

abbrev pub first_clip : Message
first_clip = seal_clip toy key nonce header (codes "hi")

abbrev pub second_clip : Message
second_clip = seal_clip toy key nonce later_header (codes "yo")

pub opens_first : open_clip toy key first_clip ≡ some (codes "hi")
unfolding program
opens_first = refl

abbrev pub chunk_header : Message
chunk_header = record (blank MsgType.file_chunk) {
  id = codes "f1";
  origin = codes "pc";
  to = codes "tv";
  seq = pos 3;
}

abbrev pub chunk : Message
chunk = seal_file toy key nonce chunk_header (codes "data")
