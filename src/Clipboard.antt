-- ===== src/Clipboard.antt =====
-- internal/clipboard/clipboard.go: clipboard contents, and the clipboard in memory.
pub mod Image
pub mod Dib
use void_bridge.Base.{
  ℕ, ◌+◌, ◌%◌, ◌^◌, ◌<◌, ◌≡◌, ◌≢◌, refl, arith, Bool, false, [], ◌++◌, ◌∷◌, Option, none, some, Str,
  codes, ◌==◌, str_eq, if◌then◌else◌,
}
use void_bridge.Protocol.Crypto.{Hashes}

abbrev pub clip_text : Str
clip_text = codes "text"

abbrev pub clip_image : Str
clip_image = codes "image"

pub record Content : Type 0 where
  pub type : Str
  pub text : Str
  pub image : Str
  pub mime : Str
  pub sensitive : Bool

-- The bytes that are synced.
unfoldable pub content_bytes : Content → Str
content_bytes c = if c.type == clip_text then c.text else c.image

-- `protocol.Hash`: of the kind, a zero byte and the bytes.
unfoldable pub content_hash : Hashes → Content → Str
unfolding content_bytes
content_hash h c = h.sha256_hex (c.type ++ 0 ∷ content_bytes c)

-- `Memory`: a clipboard with its counter, a uint64.
pub record Memory : Type 0 where
  pub content : Option Content
  pub seq : ℕ

unfoldable pub read : Memory → Option Content
read m = m.content

unfoldable pub write : Content → Memory → Memory
write c m = record { content = some c; seq = (m.seq + 1) % 2 ^ 64 }

unfoldable pub write_text : Str → Memory → Memory
unfolding write
write_text s = write (record {
  type = clip_text;
  text = s;
  image = [];
  mime = codes "text/plain";
  sensitive = false;
})

unfoldable pub text : Memory → Str
text m = elim m.content [ none ↦ [] | some c ↦ c.text ]

-- What was written is read, and the counter tells of it, also when it wraps.
write-read :
    (c : Content) (m : Memory)
    → m.seq < 2 ^ 64
    → (read (write c m) ≡ some c) × ((write c m).seq ≢ m.seq)
unfolding write read
write-read c m h = (refl, λ e. omega arith)
