-- ===== src/Files/Name.antt =====
-- internal/files/files.go: the name under which a file is saved. A name is a list of code points,
-- as a name from JSON always is, until it is cut by its bytes.
use void_bridge.Base.{
  ℕ, ◌+◌, ◌-◌, ◌/◌, ◌%◌, Bool, false, ◌&&◌, ◌||◌, List, [], ◌∷◌, ◌++◌, Str, str_eq, nat_eq, ◌==◌,
  ltb, leb, if◌then◌else◌, length, take, map, codes,
}
use void_bridge.Protocol.Code.{trim_left, trim_right, to_upper}

-- `unicode.IsSpace`
unfoldable pub is_space : ℕ → Bool
is_space c =
    (leb 9 c && leb c 13)
    || ((c == 32)
        || ((c == 0x85)
            || ((c == 0xa0)
                || ((c == 0x1680)
                    || ((leb 0x2000 c && leb c 0x200a)
                        || ((c == 0x2028)
                            || ((c == 0x2029)
                                || ((c == 0x202f) || ((c == 0x205f) || (c == 0x3000))))))))))

-- The bytes of a code point.
unfoldable pub utf8 : ℕ → Str
utf8 r =
    if ltb r 0x80
    then r ∷ []
    else if ltb r 0x800
    then (0xc0 + r / 64) ∷ (0x80 + r % 64) ∷ []
    else if ltb r 0x10000
    then (0xe0 + r / 4096) ∷ (0x80 + r / 64 % 64) ∷ (0x80 + r % 64) ∷ []
    else (0xf0 + r / 262144) ∷ (0x80 + r / 4096 % 64) ∷ (0x80 + r / 64 % 64) ∷ (0x80 + r % 64) ∷ []

unfoldable pub encode : List ℕ → Str
unfolding utf8
encode [] = []
encode (r ∷ s) = utf8 r ++ encode s

abbrev slash : ℕ
slash = b'/'

abbrev backslash : ℕ
backslash = 92

abbrev pub dot : ℕ
dot = b'.'

abbrev pub underscore : ℕ
underscore = b'_'

abbrev pub to_slash : ℕ → ℕ
to_slash c = if c == backslash then slash else c

-- What follows the last separator.
unfoldable pub after_slash : List ℕ → List ℕ → List ℕ
after_slash cur [] = cur
after_slash cur (c ∷ s) = after_slash (if c == slash then [] else cur ++ c ∷ []) s

unfoldable pub is_among : ℕ → Str → Bool
is_among c [] = false
is_among c (x ∷ s) = (x == c) || is_among c s

-- `<>:"|?*`
abbrev pub reserved : Str
reserved = b'<' ∷ b'>' ∷ b':' ∷ 34 ∷ b'|' ∷ b'?' ∷ b'*' ∷ []

unfoldable pub safe_char : ℕ → ℕ
unfolding is_among
safe_char r = if ltb r 32 || ((r == 127) || is_among r reserved) then underscore else r

abbrev pub is_dot_or_space : ℕ → Bool
is_dot_or_space c = (c == dot) || is_space c

abbrev pub is_dot : ℕ → Bool
is_dot c = c == dot

-- `strings.TrimSpace`
unfoldable pub trim_blank : List ℕ → List ℕ
unfolding trim_left trim_right is_space
trim_blank s = trim_left is_space (trim_right is_space s)

abbrev pub or_file : List ℕ → List ℕ
or_file [] = codes "file"
or_file (c ∷ s) = c ∷ s

-- Everything of `SafeName` up to the test for an empty name.
unfoldable pub clean : List ℕ → List ℕ
unfolding after_slash safe_char trim_blank trim_left trim_right
clean name = or_file (
    trim_left is_dot (
      trim_right is_dot_or_space (trim_blank (map safe_char (after_slash [] (map to_slash name))))))

-- A name without a separator divided at its last dot: `strings.TrimSuffix(s, filepath.Ext(s))` and
-- `filepath.Ext(s)`.
abbrev pub split_with : ℕ → List ℕ × List ℕ → List ℕ × List ℕ
split_with c (stem, []) = if c == dot then ([], dot ∷ stem) else (c ∷ stem, [])
split_with c (stem, e ∷ ext) = (c ∷ stem, e ∷ ext)

unfoldable pub split_ext : List ℕ → List ℕ × List ℕ
split_ext [] = ([], [])
split_ext (c ∷ s) = split_with c (split_ext s)

-- The names of Windows' devices.
abbrev pub devices : List Str
devices =
    codes "CON"
    ∷ codes "PRN"
    ∷ codes "AUX"
    ∷ codes "NUL"
    ∷ codes "COM1"
    ∷ codes "COM2"
    ∷ codes "COM3"
    ∷ codes "COM4"
    ∷ codes "COM5"
    ∷ codes "COM6"
    ∷ codes "COM7"
    ∷ codes "COM8"
    ∷ codes "COM9"
    ∷ codes "LPT1"
    ∷ codes "LPT2"
    ∷ codes "LPT3"
    ∷ codes "LPT4"
    ∷ codes "LPT5"
    ∷ codes "LPT6"
    ∷ codes "LPT7"
    ∷ codes "LPT8"
    ∷ codes "LPT9"
    ∷ []

unfoldable pub is_one_of : Str → List Str → Bool
is_one_of s [] = false
is_one_of s (d ∷ ds) = (s == d) || is_one_of s ds

-- No character outside ASCII has one of the letters of these names for its upper case.
unfoldable pub is_device : List ℕ → Bool
unfolding to_upper is_one_of
is_device stem = is_one_of (map to_upper stem) devices

unfoldable pub unreserve : List ℕ → List ℕ
unfolding split_ext is_device
unreserve s = if is_device (split_ext s).0 then underscore ∷ s else s

abbrev pub short_ext : Str → Str
short_ext ext = if ltb 20 (length ext) then [] else ext

-- At most 200 bytes, the extension among them.
abbrev pub cut_before : Str → Str → Str
cut_before ext bytes = take (200 - length ext) bytes ++ ext

unfoldable pub shorten : List ℕ → Str
unfolding encode split_ext
shorten s =
    if ltb 200 (length (encode s))
    then cut_before (short_ext (encode (split_ext s).1)) (encode s)
    else encode s

-- `SafeName`
unfoldable pub safe_name : List ℕ → Str
unfolding clean unreserve shorten
safe_name name = shorten (unreserve (clean name))
