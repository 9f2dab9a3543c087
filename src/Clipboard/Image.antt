-- ===== src/Clipboard/Image.antt =====
-- internal/clipboard/image.go: images as Windows' device-independent bitmaps. PNG and the other
-- formats are coded by libraries. Bytes are below 256.
use void_bridge.Base.{
  ℕ, zero, suc, ◌+◌, ◌-◌, ◌*◌, ◌/◌, ◌%◌, ◌^◌, Bool, false, not, ◌&&◌, ◌||◌, List, [], ◌∷◌, ◌++◌,
  Str, nat_eq, ◌==◌, ltb, leb, if◌then◌else◌, length, drop, map,
}

pub record Color : Type 0 where
  pub r : ℕ
  pub g : ℕ
  pub b : ℕ
  pub a : ℕ

-- Rows from the top, each of the image's width.
pub record Image : Type 0 where
  pub width : ℕ
  pub rows : List (List Color)

-- ---- numbers in little-endian order

abbrev pub le32 : ℕ → Str
le32 n = (n % 256) ∷ (n / 256 % 256) ∷ (n / 65536 % 256) ∷ (n / 16777216 % 256) ∷ []

abbrev pub word32 : Str → ℕ
word32 (a ∷ b ∷ c ∷ d ∷ s) = a + 256 * b + 65536 * c + 16777216 * d
word32 _ = 0

abbrev pub word16 : Str → ℕ
word16 (a ∷ b ∷ s) = a + 256 * b
word16 _ = 0

abbrev pub byte : Str → ℕ
byte [] = 0
byte (a ∷ s) = a

-- `a & b` of words with so many bits.
unfoldable pub bits_and : ℕ → ℕ → ℕ → ℕ
bits_and zero a b = 0
bits_and (suc w) a b = a % 2 * (b % 2) + 2 * bits_and w (a / 2) (b / 2)

-- The mask and the shift after the loop of `channel`, for a mask that is not 0.
unfoldable pub shifted : ℕ → ℕ → ℕ → ℕ × ℕ
shifted zero mask shift = (mask, shift)
shifted (suc fuel) mask shift =
    let rest = shifted fuel (mask / 2) (shift + 1) in if mask % 2 == 0 then rest else (mask, shift)

abbrev pub scaled : ℕ → ℕ × ℕ → ℕ
scaled v (mask, shift) = bits_and 32 (v / 2 ^ shift) mask * 255 % 2 ^ 32 / mask % 256

-- `channel`; a word has at most 31 zeros below its lowest bit.
unfoldable pub channel : ℕ → ℕ → ℕ
unfolding bits_and shifted
channel v mask = if mask == 0 then 0 else scaled v (shifted 31 mask 0)

-- ---- encoding

abbrev pub blend : ℕ → ℕ → ℕ
blend a v = (v * a + 255 * (255 - a)) / 255 % 256

abbrev pub pixel_bytes : Color → Str
pixel_bytes c = blend c.a c.b ∷ blend c.a c.g ∷ blend c.a c.r ∷ 255 ∷ []

unfoldable pub row_bytes : List Color → Str
row_bytes [] = []
row_bytes (c ∷ cs) = pixel_bytes c ++ row_bytes cs

unfoldable pub rows_bytes : List (List Color) → Str
unfolding row_bytes
rows_bytes [] = []
rows_bytes (r ∷ rs) = row_bytes r ++ rows_bytes rs

abbrev pub zeros16 : Str
zeros16 = le32 0 ++ (le32 0 ++ (le32 0 ++ le32 0))

-- `ImageToDIB`
unfoldable pub image_to_dib : Image → Str
unfolding rows_bytes
image_to_dib i =
    let h = length i.rows in
    le32 40
    ++ (le32 i.width
        ++ (le32 (2 ^ 32 - h)
            ++ (1 ∷ 0 ∷ 32 ∷ 0 ∷ [])
            ++ (le32 0 ++ (le32 (i.width * h * 4) ++ (zeros16 ++ rows_bytes i.rows)))))

-- ---- decoding

pub data DibError : Type 0 where
  too_short bad_header missing_masks compressed short_palette short_pixels bad_depth : DibError

pub data Decoded : Type 0 where
  image : Image → Decoded
  refused : DibError → Decoded

pub record Header : Type 0 where
  pub size : ℕ
  pub width : ℕ
  pub height : ℕ
  pub top_down : Bool
  pub bpp : ℕ
  pub comp : ℕ
  pub colors_used : ℕ

-- An int32 from its bits: whether it is negative, and its size.
abbrev pub is_negative : ℕ → Bool
is_negative v = leb (2 ^ 31) v

abbrev pub size_of : ℕ → ℕ
size_of v = if is_negative v then 2 ^ 32 - v else v

abbrev pub header_of : Str → Header
header_of dib = record {
  size = word32 dib;
  width = word32 (drop 4 dib);
  height = size_of (word32 (drop 8 dib));
  top_down = is_negative (word32 (drop 8 dib));
  bpp = word16 (drop 14 dib);
  comp = word32 (drop 16 dib);
  colors_used = word32 (drop 32 dib);
}

abbrev pub is_bad : Str → Header → Bool
is_bad dib hd =
    ltb hd.size 40
    || (ltb (length dib) hd.size
        || (is_negative hd.width
            || ((hd.width == 0)
                || ((hd.height == 0) || (ltb 32768 hd.width || ltb 32768 hd.height)))))

pub record Masks : Type 0 where
  pub red : ℕ
  pub green : ℕ
  pub blue : ℕ
  pub alpha : ℕ

abbrev pub rgb_masks : Masks
rgb_masks = record { red = 0xff0000; green = 0xff00; blue = 0xff; alpha = 0 }

abbrev pub masks_at : Str → ℕ → Masks
masks_at s alpha = record {
  red = word32 s;
  green = word32 (drop 4 s);
  blue = word32 (drop 8 s);
  alpha = alpha;
}

-- The masks and where the palette or the pixels begin, or an error.
pub data Located : Type 0 where
  located : Masks → ℕ → Located
  bad_masks : DibError → Located

unfoldable pub locate : Str → Header → Located
locate dib hd =
    if hd.comp == 3
    then (if leb 52 hd.size
        then located (masks_at (drop 40 dib) (if leb 56 hd.size then word32 (drop 52 dib) else 0))
            hd.size
        else if ltb (length dib) (hd.size + 12)
        then bad_masks missing_masks
        else located (masks_at (drop hd.size dib) 0) (hd.size + 12))
    else if hd.comp == 0
    then located rgb_masks hd.size
    else bad_masks compressed

abbrev pub palette_size : Header → ℕ
palette_size hd =
    if leb hd.bpp 8 then (if hd.colors_used == 0 then 2 ^ hd.bpp else hd.colors_used) else 0

abbrev pub no_color : Color
no_color = record { r = 0; g = 0; b = 0; a = 0 }

-- An entry of the palette, which begins with the bytes given.
abbrev pub palette_color : Str → ℕ → ℕ → Color
palette_color palette n idx =
    let p = drop (4 * idx) palette in
    if ltb idx n
    then record { r = byte (drop 2 p); g = byte (drop 1 p); b = byte p; a = 255 }
    else no_color

abbrev pub alpha32 : Header → Masks → ℕ → ℕ
alpha32 hd k v =
    if hd.comp == 0 then v / 16777216 else if k.alpha == 0 then 255 else channel v k.alpha

abbrev pub pixel32 : Header → Masks → ℕ → Color
pixel32 hd k v = record {
  r = channel v k.red;
  g = channel v k.green;
  b = channel v k.blue;
  a = alpha32 hd k v;
}

abbrev pub pixel24 : Str → Color
pixel24 p = record { r = byte (drop 2 p); g = byte (drop 1 p); b = byte p; a = 255 }

abbrev pub masks16 : Header → Masks → Masks
masks16 hd k =
    if hd.comp == 0 then record { red = 0x7c00; green = 0x03e0; blue = 0x001f; alpha = 0 } else k

abbrev pub pixel16 : Masks → ℕ → Color
pixel16 k v = record { r = channel v k.red; g = channel v k.green; b = channel v k.blue; a = 255 }

abbrev pub index_of : ℕ → ℕ → Str → ℕ
index_of bpp x row =
    let bit = x * bpp in byte (drop (bit / 8) row) / 2 ^ (8 - bpp - bit % 8) % 2 ^ bpp

abbrev pub is_depth : ℕ → Bool
is_depth bpp =
    (bpp == 32) || ((bpp == 24) || ((bpp == 16) || ((bpp == 8) || ((bpp == 4) || (bpp == 1)))))

-- The color at a place of a row.
unfoldable pub color_at : Header → Masks → Str → ℕ → Str → Color
unfolding channel
color_at hd k palette x row =
    if hd.bpp == 32
    then pixel32 hd k (word32 (drop (x * 4) row))
    else if hd.bpp == 24
    then pixel24 (drop (x * 3) row)
    else if hd.bpp == 16
    then pixel16 (masks16 hd k) (word16 (drop (x * 2) row))
    else palette_color palette (palette_size hd) (index_of hd.bpp x row)

unfoldable pub row_colors : Header → Masks → Str → Str → ℕ → ℕ → List Color
unfolding color_at
row_colors hd k palette row zero x = []
row_colors hd k palette row (suc n) x =
    color_at hd k palette x row ∷ row_colors hd k palette row n (x + 1)

abbrev pub stride : Header → ℕ
stride hd = (hd.width * hd.bpp + 31) / 32 * 4

abbrev pub source_row : Header → ℕ → ℕ
source_row hd y = if hd.top_down then y else hd.height - 1 - y

unfoldable pub all_rows : Header → Masks → Str → Str → ℕ → ℕ → List (List Color)
unfolding row_colors
all_rows hd k palette pix zero y = []
all_rows hd k palette pix (suc n) y =
    row_colors hd k palette (drop (source_row hd y * stride hd) pix) hd.width 0
    ∷ all_rows hd k palette pix n (y + 1)

unfoldable pub any_alpha : List Color → Bool
any_alpha [] = false
any_alpha (c ∷ cs) = not (c.a == 0) || any_alpha cs

unfoldable pub rows_alpha : List (List Color) → Bool
unfolding any_alpha
rows_alpha [] = false
rows_alpha (r ∷ rs) = any_alpha r || rows_alpha rs

abbrev pub opaque : Color → Color
opaque c = record c { a = 255 }

-- Alpha that is 0 everywhere means that the image is opaque.
unfoldable pub with_alpha : Header → List (List Color) → List (List Color)
unfolding rows_alpha
with_alpha hd rows = if (hd.bpp == 32) && not (rows_alpha rows) then map (map opaque) rows else rows

abbrev pub decoded_from : Str → Header → Located → Decoded
decoded_from dib hd (bad_masks e) = refused e
decoded_from dib hd (located k offset) =
    let n = palette_size hd in
    let start = offset + 4 * n in
    if leb hd.bpp 8 && ltb (length dib) start
    then refused short_palette
    else if ltb (length dib) (start + stride hd * hd.height)
    then refused short_pixels
    else if not (is_depth hd.bpp)
    then refused bad_depth
    else image (record {
      width = hd.width;
      rows = with_alpha hd (all_rows hd k (drop offset dib) (drop start dib) hd.height 0);
    })

-- `DIBToImage`
unfoldable pub dib_to_image : Str → Decoded
unfolding locate with_alpha all_rows
dib_to_image dib =
    if ltb (length dib) 40
    then refused too_short
    else if is_bad dib (header_of dib)
    then refused bad_header
    else decoded_from dib (header_of dib) (locate dib (header_of dib))
