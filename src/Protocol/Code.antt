-- ===== src/Protocol/Code.antt =====
-- internal/protocol/protocol.go: codes of groups and invites, and user names. Bytes from 128 on
-- are left alone by the changes of case.
pub mod Round
pub mod Trim
use void_bridge.Base.{
  ℕ, ◌+◌, ◌-◌, Bool, ◌&&◌, ◌||◌, [], ◌∷◌, ◌++◌, Str, nat_eq, leb, if◌then◌else◌, map, length, take,
  drop, nat_beq,
}
use mathlib.Core.List.{reverse}

unfoldable pub to_upper : ℕ → ℕ
to_upper c = if leb b'a' c && leb c b'z' then c - 32 else c

unfoldable pub to_lower : ℕ → ℕ
to_lower c = if leb b'A' c && leb c b'Z' then c + 32 else c

-- Tab, newline, vertical tab, form feed, carriage return and space.
unfoldable pub is_space : ℕ → Bool
is_space c = (leb 9 c && leb c 13) || nat_beq c 32

unfoldable pub trim_left : (ℕ → Bool) → Str → Str
trim_left p [] = []
trim_left p (c ∷ s) = if p c then trim_left p s else c ∷ s

unfoldable pub trim_right : (ℕ → Bool) → Str → Str
unfolding trim_left
trim_right p s = reverse (trim_left p (reverse s))

unfoldable pub trim_space : Str → Str
unfolding trim_right is_space trim_left
trim_space s = trim_left is_space (trim_right is_space s)

-- `NormalizeUsername`
unfoldable pub normalize_username : Str → Str
unfolding to_lower trim_space
normalize_username u = map to_lower (trim_space u)

-- The letters of base32: A-Z and 2-7.
unfoldable pub is_base32 : ℕ → Bool
is_base32 c = (leb b'A' c && leb c b'Z') || (leb b'2' c && leb c b'7')

-- One round of the loop in `NormalizeCode`, on an uppercase character.
unfoldable pub code_char : ℕ → Str
unfolding is_base32
code_char r =
    if nat_beq r b'0'
    then b'O' ∷ []
    else if nat_beq r b'1'
    then b'I' ∷ []
    else if nat_beq r b'8'
    then b'B' ∷ []
    else if is_base32 r
    then r ∷ []
    else []

unfoldable pub normalize_code : Str → Str
unfolding to_upper code_char
normalize_code [] = []
normalize_code (c ∷ s) = code_char (to_upper c) ++ normalize_code s

unfoldable pub valid_code : Str → Bool
unfolding normalize_code
valid_code code = nat_beq (length (normalize_code code)) 16

abbrev pub dash : ℕ
dash = b'-'

-- `n[a:b]`
abbrev pub slice : ℕ → ℕ → Str → Str
slice a b s = take (b - a) (drop a s)

unfoldable pub format_code : Str → Str
unfolding normalize_code
format_code code =
    let n = normalize_code code in
    if nat_beq (length n) 16
    then slice 0 4 n ++ dash ∷ (slice 4 8 n ++ dash ∷ (slice 8 12 n ++ dash ∷ slice 12 16 n))
    else code

-- `NewGroupCode`, from the 16 base32 letters of ten random bytes.
unfoldable pub new_group_code : Str → Str
new_group_code s =
    slice 0 4 s ++ dash ∷ (slice 4 8 s ++ dash ∷ (slice 8 12 s ++ dash ∷ slice 12 16 s))

-- `FormatInvite` of internal/server/store.go.
unfoldable pub format_invite : Str → Str
unfolding normalize_code
format_invite code =
    let c = normalize_code code in
    if nat_beq (length c) 12
    then slice 0 4 c ++ dash ∷ (slice 4 8 c ++ dash ∷ slice 8 12 c)
    else code
