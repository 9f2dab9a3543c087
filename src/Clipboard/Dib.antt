-- ===== src/Clipboard/Dib.antt =====
-- internal/clipboard/image.go: an image that is encoded is decoded again.
use void_bridge.Base.{
  ℕ, zero, suc, ◌+◌, ◌*◌, ◌/◌, ◌%◌, ◌^◌, ◌≡◌, ◌≤◌, ◌<◌, refl, ap, ◌∙◌, subst, true, List, [], ◌∷◌,
  ◌++◌, append_assoc, Str, nat_eq, ltb, if◌then◌else◌, ◌-◌, ◌==◌, length, drop, map, arith, All,
  length-append, drop-length-append,
}
use native.Mathlib.Nat.{mul_comm, mul-le-mul_right}
use void_bridge.Clipboard.Image.{
  Color, Image, le32, word32, bits_and, shifted, channel, blend, pixel_bytes, row_bytes, rows_bytes,
  image_to_dib, dib_to_image, image, refused, too_short, bad_header, is_bad, decoded_from, located,
  Header, rgb_masks, header_of, locate, color_at, row_colors, all_rows, pixel32, with_alpha,
  rows_alpha, any_alpha, stride,
}

-- A channel as it looks on white: itself where the color is opaque, white where it is transparent,
-- and the mean of both by the share of the color in between.
unfoldable pub shade : ℕ → ℕ → ℕ
shade a v = if a == 255 then v else if a == 0 then 255 else (v * a + 255 * (255 - a)) / 255

abbrev pub on_white : Color → Color
on_white c = record { r = shade c.a c.r; g = shade c.a c.g; b = shade c.a c.b; a = 255 }

-- Go's channels are bytes.
abbrev pub IsBytes : Color → Type 0
IsBytes c = (c.r < 256) × (c.g < 256) × (c.b < 256) × (c.a < 256)

blend-shade : (a v : ℕ) → a < 256 → v < 256 → blend a v ≡ shade a v
unfolding shade
blend-shade a v ha hv =
    let le : v * a ≤ 255 * a = mul-le-mul_right a (omega arith) in ground (arith, le)

blend-on_white :
    (c : Color)
    → IsBytes c
    → record { r = blend c.a c.r; g = blend c.a c.g; b = blend c.a c.b; a = 255 } ≡ on_white c
blend-on_white c h =
    rw (blend-shade c.a c.r h.3 h.0, blend-shade c.a c.g h.3 h.1, blend-shade c.a c.b h.3 h.2) refl

bits_and-zero : (w a : ℕ) → bits_and w a 0 ≡ 0
unfolding bits_and
bits_and-zero zero a = refl
bits_and-zero (suc w) a = omega (arith, bits_and-zero w (a / 2))

bits_and-255 : (a : ℕ) → bits_and 32 a 255 ≡ a % 256
unfolding bits_and
bits_and-255 a = omega (arith, bits_and-zero 24 (a / 2 / 2 / 2 / 2 / 2 / 2 / 2 / 2))

channel-red : (v : ℕ) → channel v 0xff0000 ≡ v / 65536 % 256
unfolding channel shifted
channel-red v = omega (arith, bits_and-255 (v / 65536))

channel-green : (v : ℕ) → channel v 0xff00 ≡ v / 256 % 256
unfolding channel shifted
channel-green v = omega (arith, bits_and-255 (v / 256))

channel-blue : (v : ℕ) → channel v 0xff ≡ v % 256
unfolding channel shifted
channel-blue v = omega (arith, bits_and-255 (v / 1))

-- The header of an encoded image.
abbrev header : ℕ → ℕ → Header
header w h = record {
  size = 40;
  width = w;
  height = h;
  top_down = true;
  bpp = 32;
  comp = 0;
  colors_used = 0;
}

pixel-word :
    (w h b g r : ℕ)
    → b < 256
    → g < 256
    → r < 256
    → pixel32 (header w h) rgb_masks (word32 (b ∷ g ∷ r ∷ 255 ∷ []))
      ≡ record { r = r; g = g; b = b; a = 255 }
pixel-word w h b g r hb hg hr =
    let v : ℕ = b + 256 * g + 65536 * r + 16777216 * 255 in
    ground (arith, channel-red v, channel-green v, channel-blue v)

blend_byte : (a v : ℕ) → blend a v < 256
blend_byte a v = omega arith

color_at-pixel :
    (w h x : ℕ) (palette pre s : Str) (c : Color)
    → IsBytes c
    → length pre ≡ x * 4
    → color_at (header w h) rgb_masks palette x (pre ++ (pixel_bytes c ++ s)) ≡ on_white c
unfolding color_at
color_at-pixel w h x palette pre s c k e =
    let here : drop (x * 4) (pre ++ (pixel_bytes c ++ s)) ≡ pixel_bytes c ++ s =
      subst (λ (n : ℕ). drop n (pre ++ (pixel_bytes c ++ s)) ≡ pixel_bytes c ++ s) e
        (drop-length-append pre (pixel_bytes c ++ s)) in
    ap (λ (t : Str). pixel32 (header w h) rgb_masks (word32 t)) here
    ∙ pixel-word w h (blend c.a c.b) (blend c.a c.g) (blend c.a c.r) (blend_byte c.a c.b)
        (blend_byte c.a c.g) (blend_byte c.a c.r)
    ∙ blend-on_white c k

row_colors-row_bytes :
    (w h x : ℕ) (palette pre s : Str) (cs : List Color)
    → All IsBytes cs
    → length pre ≡ x * 4
    → row_colors (header w h) rgb_masks palette (pre ++ (row_bytes cs ++ s)) (length cs) x
      ≡ map on_white cs
unfolding row_colors row_bytes
row_colors-row_bytes w h x palette pre s [] k e = refl
row_colors-row_bytes w h x palette pre s (c ∷ cs) k e =
    let rest = row_bytes cs ++ s in
    let tail =
      subst
        (λ (t : Str).
          row_colors (header w h) rgb_masks palette t (length cs) (x + 1) ≡ map on_white cs)
        (append_assoc pre (pixel_bytes c) rest)
        (row_colors-row_bytes w h (x + 1) palette (pre ++ pixel_bytes c) s cs k.1
          (omega (arith, length-append pre (pixel_bytes c)))) in
    ap
      (λ (q : Color).
        q
        ∷ row_colors (header w h) rgb_masks palette (pre ++ (row_bytes (c ∷ cs) ++ s)) (length cs)
            (x + 1))
      (color_at-pixel w h x palette pre rest c k.0 e)
    ∙ ap (◌∷◌ (on_white c)) tail

length-row_bytes : (cs : List Color) → length (row_bytes cs) ≡ length cs * 4
unfolding row_bytes
length-row_bytes [] = refl
length-row_bytes (c ∷ cs) = omega (arith, length-row_bytes cs)

next_row : (w y n m : ℕ) → n ≡ y * (w * 4) → m ≡ n + w * 4 → m ≡ (y + 1) * (w * 4)
next_row w y n m e f = grind arith

length-rows_bytes :
    (w : ℕ) (rs : List (List Color))
    → All (λ r. length r ≡ w) rs
    → length (rows_bytes rs) ≡ length rs * (w * 4)
unfolding rows_bytes
length-rows_bytes w [] a = omega arith
length-rows_bytes w (r ∷ rs) a =
    let ih = length-rows_bytes w rs a.1 in
    next_row w (length rs) (length (rows_bytes rs)) (length (row_bytes r ++ rows_bytes rs)) ih
      (omega (arith, length-append (row_bytes r) (rows_bytes rs), length-row_bytes r, a.0))
    ∙ ap (λ (n : ℕ). n * (w * 4)) (omega arith)

all_rows-rows_bytes :
    (w h y : ℕ) (palette pre : Str) (rs : List (List Color))
    → All (All IsBytes) rs
    → All (λ r. length r ≡ w) rs
    → length pre ≡ y * (w * 4)
    → all_rows (header w h) rgb_masks palette (pre ++ rows_bytes rs) (length rs) y
      ≡ map (map on_white) rs
unfolding all_rows rows_bytes
all_rows-rows_bytes w h y palette pre [] k a e = refl
all_rows-rows_bytes w h y palette pre (r ∷ rs) k a e =
    let rest = row_bytes r ++ rows_bytes rs in
    let here : drop (y * stride (header w h)) (pre ++ rest) ≡ rest =
      subst (λ (n : ℕ). drop n (pre ++ rest) ≡ rest)
        (e ∙ ap (λ (n : ℕ). y * n) (let same : w * 4 ≡ stride (header w h) = omega arith in same))
        (drop-length-append pre rest) in
    let first : row_colors (header w h) rgb_masks palette rest w 0 ≡ map on_white r =
      subst (λ (n : ℕ). row_colors (header w h) rgb_masks palette rest n 0 ≡ map on_white r) a.0
        (row_colors-row_bytes w h 0 palette [] (rows_bytes rs) r k.0 refl) in
    let tail =
      subst
        (λ (t : Str).
          all_rows (header w h) rgb_masks palette t (length rs) (y + 1) ≡ map (map on_white) rs)
        (append_assoc pre (row_bytes r) (rows_bytes rs))
        (all_rows-rows_bytes w h (y + 1) palette (pre ++ row_bytes r) rs k.1 a.1 (
          next_row w y (length pre) (length (pre ++ row_bytes r)) e
            (omega (arith, length-append pre (row_bytes r), length-row_bytes r, a.0)))) in
    ap
      (λ (q : List Color).
        q ∷ all_rows (header w h) rgb_masks palette (pre ++ rest) (length rs) (y + 1))
      (ap (λ (t : Str). row_colors (header w h) rgb_masks palette t w 0) here ∙ first)
    ∙ ap (◌∷◌ (map on_white r)) tail

rows_alpha-on_white :
    (w : ℕ) (rs : List (List Color))
    → 1 ≤ w
    → 1 ≤ length rs
    → All (λ r. length r ≡ w) rs
    → rows_alpha (map (map on_white) rs) ≡ true
unfolding rows_alpha any_alpha
rows_alpha-on_white w [] hw h a = absurd (omega arith)
rows_alpha-on_white w ([] ∷ rs) hw h a = absurd (omega (arith, a.0))
rows_alpha-on_white w ((c ∷ cs) ∷ rs) hw h a = refl

word32-le32 : (n : ℕ) (s : Str) → n < 2 ^ 32 → word32 (le32 n ++ s) ≡ n
word32-le32 n s h = omega arith

header_of-image_to_dib :
    (i : Image)
    → i.width ≤ 32768
    → 1 ≤ length i.rows
    → length i.rows ≤ 32768
    → header_of (image_to_dib i) ≡ header i.width (length i.rows)
unfolding image_to_dib drop
header_of-image_to_dib i hw h1 h2 = ground arith

length-image_to_dib : (i : Image) → length (image_to_dib i) ≡ 40 + length (rows_bytes i.rows)
unfolding image_to_dib
length-image_to_dib i = omega arith

drop-image_to_dib : (i : Image) → drop 40 (image_to_dib i) ≡ rows_bytes i.rows
unfolding image_to_dib drop
drop-image_to_dib i = refl

-- The decoder, at a blob whose header is known.
dib_to_image-header :
    (dib : Str) (hd : Header)
    → header_of dib ≡ hd
    → dib_to_image dib ≡ (
        if ltb (length dib) 40
        then refused too_short
        else if is_bad dib hd
        then refused bad_header
        else decoded_from dib hd (locate dib hd))
unfolding dib_to_image
dib_to_image-header dib hd e =
    ap
      (λ (x : Header).
        if ltb (length dib) 40
        then refused too_short
        else if is_bad dib x
        then refused bad_header
        else decoded_from dib x (locate dib x))
      e

decoded_from-header :
    (dib : Str) (w h : ℕ) (rows : List (List Color))
    → length dib ≡ 40 + h * (w * 4)
    → all_rows (header w h) rgb_masks (drop 40 dib) (drop 40 dib) h 0 ≡ rows
    → rows_alpha rows ≡ true
    → decoded_from dib (header w h) (located rgb_masks 40)
      ≡ image (record { width = w; rows = rows })
unfolding with_alpha
decoded_from-header dib w h rows len e a =
    let size : stride (header w h) * h ≡ h * (w * 4) =
      let same : stride (header w h) ≡ w * 4 = omega arith in
      ap (λ (n : ℕ). n * h) same ∙ mul_comm (w * 4) h in
    rw (e, a) (ground (arith, size, len))

-- What is put on the clipboard as a bitmap is read back: an image of 1 to 32768 columns and rows,
-- all rows of one length and all channels bytes, comes back with its size and with every pixel as
-- it looks on white: the pixel itself where it is opaque, white where it is transparent, and else
-- each channel the mean of the pixel and white by the pixel's alpha, rounded down.
pub dib_to_image-image_to_dib :
    (i : Image)
    → 1 ≤ i.width
    → i.width ≤ 32768
    → 1 ≤ length i.rows
    → length i.rows ≤ 32768
    → All (λ r. length r ≡ i.width) i.rows
    → All (All IsBytes) i.rows
    → dib_to_image (image_to_dib i)
      ≡ image (record { width = i.width; rows = map (map on_white) i.rows })
unfolding locate
dib_to_image-image_to_dib i w1 w2 h1 h2 a k =
    let dib = image_to_dib i in
    let h = length i.rows in
    let len = length-image_to_dib i ∙ ap (λ (n : ℕ). 40 + n) (length-rows_bytes i.width i.rows a) in
    let rows : all_rows (header i.width h) rgb_masks (drop 40 dib) (drop 40 dib) h 0
        ≡ map (map on_white) i.rows =
      ap (λ (t : Str). all_rows (header i.width h) rgb_masks (drop 40 dib) t h 0)
        (drop-image_to_dib i)
      ∙ all_rows-rows_bytes i.width h 0 (drop 40 dib) [] i.rows k a (omega arith) in
    dib_to_image-header dib (header i.width h) (header_of-image_to_dib i w2 h1 h2)
    ∙ ground (
      arith,
      len,
      decoded_from-header dib i.width h (map (map on_white) i.rows) len rows
          (rows_alpha-on_white i.width i.rows w1 h1 a),
    )
