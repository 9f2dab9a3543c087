-- ===== src/Protocol/Seal/Binding.antt =====
-- What an end-to-end sealed message guarantees to the device that opens it.
use void_bridge.Base.{
  ◌<◌, ◌≡◌, true, false, some, Str, ◌++◌, length, take, drop, ltb, arith, Lacks, split_at_separator,
  format_int, Lacks-format_int, format_int_injective, IsInt64, take-length-append,
  drop-length-append, length-append,
}
use void_bridge.Protocol.Message.{Message, MsgType, is_file}
use void_bridge.Protocol.Crypto.{Aead, IsAead}
use void_bridge.Protocol.Seal.{
  bar, aead_nonce_size, type_name, clip_aad, file_aad, seal_file, open_file, seal_body, open_body,
}

-- Fields that the separator cannot stand in.
pub record IsPlainHeader (m : Message) : Type 0 where
  pub id_plain : Lacks bar m.id
  pub origin_plain : Lacks bar m.origin
  pub type_plain : Lacks bar m.clip_type
  pub to_plain : Lacks bar m.to
  pub time_int64 : IsInt64 m.time
  pub seq_int64 : IsInt64 m.seq

bar_above : 57 < bar
bar_above = omega arith

pub clip_aad_injective :
    (m n : Message)
    → IsPlainHeader m
    → IsPlainHeader n
    → clip_aad m ≡ clip_aad n
    → (m.id ≡ n.id)
      × (m.origin ≡ n.origin)
      × (m.time ≡ n.time)
      × (m.clip_type ≡ n.clip_type)
      × (m.mime ≡ n.mime)
unfolding clip_aad
clip_aad_injective m n pm pn e =
    let (i, e₁) = split_at_separator bar m.id n.id _ _ pm.id_plain pn.id_plain (cc) in
    let (o, e₂) = split_at_separator bar m.origin n.origin _ _ pm.origin_plain pn.origin_plain e₁ in
    let (t, e₃) =
      split_at_separator bar (format_int m.time) (format_int n.time) _ _
        (Lacks-format_int bar m.time bar_above) (Lacks-format_int bar n.time bar_above) e₂ in
    let (c, e₄) =
      split_at_separator bar m.clip_type n.clip_type _ _ pm.type_plain pn.type_plain e₃ in
    (i, o, format_int_injective m.time n.time pm.time_int64 pn.time_int64 t, c, e₄)

Lacks-type_name : (t : MsgType) → is_file t ≡ true → Lacks bar (type_name t)
unfolding type_name is_file
Lacks-type_name MsgType.file_start h = omega arith
Lacks-type_name MsgType.file_chunk h = omega arith
Lacks-type_name MsgType.file_end h = omega arith
Lacks-type_name MsgType.file_ack h = omega arith
Lacks-type_name _ h = cc

type_name_injective :
    (t u : MsgType) → is_file t ≡ true → is_file u ≡ true → type_name t ≡ type_name u → t ≡ u
unfolding type_name is_file
type_name_injective MsgType.file_start u h k e = ground arith
type_name_injective MsgType.file_chunk u h k e = ground arith
type_name_injective MsgType.file_end u h k e = ground arith
type_name_injective MsgType.file_ack u h k e = ground arith
type_name_injective _ u h k e = cc

pub file_aad_injective :
    (m n : Message)
    → IsPlainHeader m
    → IsPlainHeader n
    → is_file m.type ≡ true
    → is_file n.type ≡ true
    → file_aad m ≡ file_aad n
    → (m.type ≡ n.type) × (m.id ≡ n.id) × (m.origin ≡ n.origin) × (m.to ≡ n.to) × (m.seq ≡ n.seq)
unfolding file_aad
file_aad_injective m n pm pn fm fn e =
    let (y, e₀) =
      split_at_separator bar (type_name m.type) (type_name n.type) _ _ (Lacks-type_name m.type fm)
        (Lacks-type_name n.type fn) (cc) in
    let (i, e₁) = split_at_separator bar m.id n.id _ _ pm.id_plain pn.id_plain e₀ in
    let (o, e₂) = split_at_separator bar m.origin n.origin _ _ pm.origin_plain pn.origin_plain e₁ in
    let (t, e₃) = split_at_separator bar m.to n.to _ _ pm.to_plain pn.to_plain e₂ in
    (
      type_name_injective m.type n.type fm fn y,
      i,
      o,
      t,
      format_int_injective m.seq n.seq pm.seq_int64 pn.seq_int64 e₃,
    )

-- What opens a sealed body: the nonce, and the sealed text.
body_parts :
    (nonce sealed : Str)
    → length nonce ≡ aead_nonce_size
    → (take aead_nonce_size (nonce ++ sealed) ≡ nonce)
      × (drop aead_nonce_size (nonce ++ sealed) ≡ sealed)
      × (ltb (length (nonce ++ sealed)) aead_nonce_size ≡ false)
body_parts nonce sealed h = (
  rw (← h) (take-length-append nonce sealed),
  rw (← h) (drop-length-append nonce sealed),
  ground (arith, length-append nonce sealed),
)

module _ (c : Aead) (laws : IsAead c) (key nonce : Str)
    (size : length nonce ≡ aead_nonce_size) where
  open-seal_body : (p aad : Str) → open_body c key (seal_body c key nonce p aad) aad ≡ some p
  unfolding open_body seal_body
  open-seal_body p aad =
      let (t, d, l) = body_parts nonce (c.seal key nonce p aad) size in
      rw (l, t, d) (laws.open-seal key nonce p aad)

  pub open_file-seal_file_same :
      (m : Message) (p : Str) → open_file c key (seal_file c key nonce m p) ≡ some p
  unfolding open_file seal_file file_aad
  open_file-seal_file_same m p = open-seal_body p (file_aad m)
