-- ===== src/Files/Safe.antt =====
-- internal/files/files.go: what `SafeName` promises.
use void_bridge.Base.{
  ℕ, zero, suc, ◌-◌, ◌≡◌, ◌≢◌, ◌≤◌, refl, Bool, true, false, not, ◌||◌, List, [], ◌∷◌, ◌++◌, Str,
  str_eq, nat_eq, ◌==◌, ltb, length, take, map, arith, All, All-append, All-map, length-append,
  length-take, Bool-cases, inl, inr,
}
use void_bridge.Protocol.Code.{trim_left, trim_right}
use void_bridge.Protocol.Code.Trim.{All-reverse}
use void_bridge.Files.Name.{
  utf8, encode, to_slash, after_slash, is_among, safe_char, is_dot_or_space, is_dot, trim_blank,
  or_file, clean, split_with, split_ext, is_device, unreserve, short_ext, cut_before, shorten,
  safe_name, dot, is_space,
}

-- No `/` and no `\`, none of `<>:"|?*`, nothing below 32 and not 127.
abbrev pub is_plain : ℕ → Bool
is_plain c = not (
    ltb c 32
    || (c == 127)
    || (c == 47)
    || (c == 92)
    || (c == 60)
    || (c == 62)
    || (c == 58)
    || (c == 34)
    || (c == 124)
    || (c == 63)
    || (c == 42))

abbrev pub IsPlain : ℕ → Type 0
IsPlain c = is_plain c ≡ true

trim_left-All : (P : ℕ → Type 0) (p : ℕ → Bool) (s : Str) → All P s → All P (trim_left p s)
unfolding trim_left
trim_left-All P p [] a = tt
trim_left-All P p (c ∷ s) a = elim (Bool-cases (p c)) [
  | inl e ↦ rw e (trim_left-All P p s a.1)
  | inr e ↦ rw e a
]

trim_right-All : (P : ℕ → Type 0) (p : ℕ → Bool) (s : Str) → All P s → All P (trim_right p s)
unfolding trim_right
trim_right-All P p s a = All-reverse P _ (trim_left-All P p _ (All-reverse P s a))

trim_left-first : (p : ℕ → Bool) (s t : Str) (c : ℕ) → trim_left p s ≡ c ∷ t → p c ≡ false
unfolding trim_left
trim_left-first p [] t c h = cc
trim_left-first p (d ∷ s) t c h = ground (arith, trim_left-first p s t c)

after_slash-All :
    (cur s : List ℕ)
    → All (λ c. c ≢ 92) s
    → All (λ c. (c ≢ b'/') × (c ≢ 92)) cur
    → All (λ c. (c ≢ b'/') × (c ≢ 92)) (after_slash cur s)
unfolding after_slash
after_slash-All cur [] a b = b
after_slash-All cur (c ∷ s) a b = elim (Bool-cases (c == b'/')) [
  | inl e ↦ rw e (after_slash-All [] s a.1 tt)
  | inr e ↦ rw e (
      after_slash-All (cur ++ c ∷ []) s a.1
        (All-append (λ d. (d ≢ b'/') × (d ≢ 92)) cur (c ∷ []) b ((ground arith, a.0), tt)))
]

to_slash-All : (s : List ℕ) → All (λ c. c ≢ 92) (map to_slash s)
to_slash-All [] = tt
to_slash-All (c ∷ s) = (ground arith, to_slash-All s)

safe_char-IsPlain : (c : ℕ) → (c ≢ b'/') × (c ≢ 92) → IsPlain (safe_char c)
unfolding safe_char is_among
safe_char-IsPlain c h = ground arith

or_file-All : (s : List ℕ) → All IsPlain s → All IsPlain (or_file s)
unfolding is_among
or_file-All [] a = (refl, (refl, (refl, (refl, tt))))
or_file-All (c ∷ s) a = a

clean-All : (name : List ℕ) → All IsPlain (clean name)
unfolding clean trim_blank
clean-All name = or_file-All _ (
    trim_left-All IsPlain is_dot _ (
      trim_right-All IsPlain is_dot_or_space _ (
        trim_left-All IsPlain is_space _ (
          trim_right-All IsPlain is_space _ (
            All-map IsPlain (λ c. (c ≢ b'/') × (c ≢ 92)) safe_char safe_char-IsPlain
              (after_slash [] (map to_slash name))
              (after_slash-All [] (map to_slash name) (to_slash-All name) tt))))))

-- There is a first character, and it is no dot.
abbrev pub is_visible : Str → Bool
is_visible [] = false
is_visible (c ∷ s) = not (c == dot)

or_file_visible : (s : List ℕ) → is_visible (or_file (trim_left is_dot s)) ≡ true
unfolding trim_left
or_file_visible [] = refl
or_file_visible (c ∷ s) = elim (Bool-cases (is_dot c)) [
  | inl e ↦ rw e (or_file_visible s)
  | inr e ↦ rw e (rw e refl)
]

clean_visible : (name : List ℕ) → is_visible (clean name) ≡ true
unfolding clean
clean_visible name =
    or_file_visible
      (trim_right is_dot_or_space (trim_blank (map safe_char (after_slash [] (map to_slash name)))))

unreserve-All : (s : List ℕ) → All IsPlain s → All IsPlain (unreserve s)
unfolding unreserve is_among
unreserve-All s a = elim (Bool-cases (is_device (split_ext s).0)) [
  | inl e ↦ rw e (refl, a)
  | inr e ↦ rw e a
]

unreserve_visible : (s : List ℕ) → is_visible s ≡ true → is_visible (unreserve s) ≡ true
unfolding unreserve
unreserve_visible s h = elim (Bool-cases (is_device (split_ext s).0)) [
  | inl e ↦ rw e refl
  | inr e ↦ rw e h
]

utf8-All : (r : ℕ) → IsPlain r → All IsPlain (utf8 r)
unfolding utf8 is_among
utf8-All r h = ground arith

encode-All : (s : List ℕ) → All IsPlain s → All IsPlain (encode s)
unfolding encode
encode-All [] a = tt
encode-All (r ∷ s) a = All-append IsPlain (utf8 r) (encode s) (utf8-All r a.0) (encode-All s a.1)

encode_visible : (s : List ℕ) → is_visible s ≡ true → is_visible (encode s) ≡ true
unfolding encode utf8
encode_visible [] h = h
encode_visible (r ∷ s) h = ground arith

split_ext-All :
    (P : ℕ → Type 0) (s : List ℕ) → P dot → All P s → All P (split_ext s).0 × All P (split_ext s).1
unfolding split_ext
split_ext-All P [] d a = (tt, tt)
split_ext-All P (c ∷ s) d a = go (split_ext s) (split_ext-All P s d a.1)
  where
    go :
        (r : List ℕ × List ℕ)
        → All P r.0 × All P r.1
        → All P (split_with c r).0 × All P (split_with c r).1
    go (stem, []) b = elim (Bool-cases (c == dot)) [
      | inl e ↦ rw e (tt, (d, b.0))
      | inr e ↦ rw e ((a.0, b.0), tt)
    ]
    go (stem, x ∷ ext) b = ((a.0, b.0), b.1)

take-All : (P : ℕ → Type 0) (n : ℕ) (s : Str) → All P s → All P (take n s)
unfolding take
take-All P zero s a = tt
take-All P (suc n) [] a = tt
take-All P (suc n) (c ∷ s) a = (a.0, take-All P n s a.1)

take_visible : (n : ℕ) (s t : Str) → is_visible s ≡ true → is_visible (take (suc n) s ++ t) ≡ true
unfolding take
take_visible n [] t h = cc
take_visible n (c ∷ s) t h = h

short_ext_bound : (ext : Str) → length (short_ext ext) ≤ 20
short_ext_bound ext = ground arith

cut_before_bound : (ext bytes : Str) → length ext ≤ 20 → length (cut_before ext bytes) ≤ 200
cut_before_bound ext bytes h =
    omega (
      arith,
      length-append (take (200 - length ext) bytes) ext,
      length-take (200 - length ext) bytes,
    )

visible-positive : (s : Str) → is_visible s ≡ true → 1 ≤ length s
visible-positive [] h = cc
visible-positive (c ∷ s) h = omega arith

encode-short_ext-All :
    (s : List ℕ) → All IsPlain s → All IsPlain (short_ext (encode (split_ext s).1))
unfolding is_among
encode-short_ext-All s a = elim (Bool-cases (ltb 20 (length (encode (split_ext s).1)))) [
  | inl e ↦ rw e tt
  | inr e ↦ rw e (encode-All (split_ext s).1 (split_ext-All IsPlain s refl a).1)
]

shorten-All : (s : List ℕ) → All IsPlain s → All IsPlain (shorten s)
unfolding shorten
shorten-All s a = elim (Bool-cases (ltb 200 (length (encode s)))) [
  | inl e ↦
      let ext = short_ext (encode (split_ext s).1) in
      rw e (
        All-append IsPlain (take (200 - length ext) (encode s)) ext
          (take-All IsPlain (200 - length ext) (encode s) (encode-All s a))
          (encode-short_ext-All s a))
  | inr e ↦ rw e (encode-All s a)
]

cut_before_visible :
    (ext bytes : Str)
    → length ext ≤ 20
    → is_visible bytes ≡ true
    → is_visible (cut_before ext bytes) ≡ true
cut_before_visible ext bytes h v =
    let n : 200 - length ext ≡ suc (199 - length ext) = omega arith in
    rw n (take_visible (199 - length ext) bytes ext v)

shorten_visible : (s : List ℕ) → is_visible s ≡ true → is_visible (shorten s) ≡ true
unfolding shorten
shorten_visible s v = elim (Bool-cases (ltb 200 (length (encode s)))) [
  | inl e ↦ rw e (
      cut_before_visible (short_ext (encode (split_ext s).1)) (encode s)
        (short_ext_bound (encode (split_ext s).1)) (encode_visible s v))
  | inr e ↦ rw e (encode_visible s v)
]

shorten_bound : (s : List ℕ) → length (shorten s) ≤ 200
unfolding shorten
shorten_bound s = elim (Bool-cases (ltb 200 (length (encode s)))) [
  | inl e ↦ rw e (
      cut_before_bound (short_ext (encode (split_ext s).1)) (encode s)
        (short_ext_bound (encode (split_ext s).1)))
  | inr e ↦ rw e (ground arith)
]

-- Whatever name another device chose, the file's name has one to 200 bytes, of which none is `/`,
-- `\`, one of `<>:"|?*`, below 32 or 127, and it does not start with a dot: it is neither hidden
-- nor a way out of the folder. Of the names of devices and of control characters above 127 nothing
-- is said.
pub safe_name-IsPlain :
    (name : List ℕ)
    → All IsPlain (safe_name name)
      × (1 ≤ length (safe_name name))
      × (length (safe_name name) ≤ 200)
      × (is_visible (safe_name name) ≡ true)
unfolding safe_name
safe_name-IsPlain name =
    let v =
      shorten_visible (unreserve (clean name))
        (unreserve_visible (clean name) (clean_visible name)) in
    (
      shorten-All (unreserve (clean name)) (unreserve-All (clean name) (clean-All name)),
      visible-positive (shorten (unreserve (clean name))) v,
      shorten_bound (unreserve (clean name)),
      v,
    )
