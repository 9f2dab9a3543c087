-- ===== src/Tests/Images.antt =====
-- Bitmaps of the clipboard.
use void_bridge.Base.{◌≡◌, refl, [], ◌∷◌, map, arith}
use void_bridge.Clipboard.Image.{Color, Image, image, image_to_dib, dib_to_image}
use void_bridge.Clipboard.Dib.{on_white, shade, IsBytes, dib_to_image-image_to_dib}

abbrev half_red : Color
half_red = record { r = 255; g = 0; b = 0; a = 127 }

abbrev green : Color
green = record { r = 1; g = 200; b = 3; a = 255 }

half_red-IsBytes : IsBytes half_red
half_red-IsBytes = (omega arith, omega arith, omega arith, omega arith)

green-IsBytes : IsBytes green
green-IsBytes = (omega arith, omega arith, omega arith, omega arith)

abbrev picture : Image
picture = record {
  width = 2;
  rows = (half_red ∷ green ∷ []) ∷ (green ∷ green ∷ []) ∷ (half_red ∷ half_red ∷ []) ∷ [];
}

opaque_stays : on_white green ≡ green
unfolding shade
opaque_stays = refl

dib_to_image-image_to_dib_example :
    dib_to_image (image_to_dib picture)
    ≡ image (record { width = 2; rows = map (map on_white) picture.rows })
dib_to_image-image_to_dib_example =
    dib_to_image-image_to_dib picture (omega arith) (omega arith) (omega arith) (omega arith)
      (refl, (refl, (refl, tt)))
      (
        (half_red-IsBytes, (green-IsBytes, tt)),
        ((green-IsBytes, (green-IsBytes, tt)), ((half_red-IsBytes, (half_red-IsBytes, tt)), tt)),
      )
