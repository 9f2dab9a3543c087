-- ===== src/Update/Fetch.antt =====
-- internal/update/update.go: the newest release, and the download of one of its files. What GitHub
-- answers is a parameter: for an address the body, or nothing if `get` fails.
use void_bridge.Base.{
  ℕ, ◌*◌, ◌^◌, ◌≡◌, ◌⊎◌, refl, ◌∙◌, Bool, true, false, not, ◌&&◌, ◌||◌, List, [], ◌∷◌, Option, none,
  some, Str, str_eq, nat_eq, ◌==◌, if◌then◌else◌, arith, length, take, map, codes, bytes_eq_iff,
  sym, ap, Bool-cases, Option-cases, subst, inl, inr, eq_refl,
}
use void_bridge.Base.Dict.{lookup, insert}
use void_bridge.Protocol.Code.{is_space, to_lower}
use void_bridge.Protocol.Crypto.{Hashes}
use void_bridge.Update.Version.{split}

-- A body as it is read: its bytes, and whether no error came before its end. Of the sums at most
-- 64 KiB are read, and only an error in these counts.
pub record Body : Type 0 where
  pub bytes : Str
  pub whole : Bool

pub record Asset : Type 0 where
  pub name : Str
  pub url : Str

-- GitHub's answer, as the JSON decoder gives it from the first MiB.
pub record Answer : Type 0 where
  pub tag : Str
  pub page : Str
  pub prerelease : Bool
  pub draft : Bool
  pub files : List Asset

pub record Release : Type 0 where
  pub version : Str
  pub page : Str
  pub assets : List (Str × Str)

pub data UpdateError : Type 0 where
  unreachable unexpected not_stable not_in_release no_sums no_checksum broken_off damaged :
      UpdateError

pub data Result {ℓ} (A : Type ℓ) : Type ℓ where
  ok : A → Result A
  err : UpdateError → Result A

unfoldable pub assets_of : List Asset → List (Str × Str) → List (Str × Str)
assets_of [] m = m
assets_of (a ∷ as') m = assets_of as' (insert a.name a.url m)

abbrev pub release_of : Answer → Result Release
release_of r =
    if r.prerelease || (r.draft || (r.tag == []))
    then err not_stable
    else ok (record { version = r.tag; page = r.page; assets = assets_of r.files [] })

-- `Latest`
unfoldable pub latest : (Str → Option Answer) → Option Body → Result Release
unfolding assets_of
latest decode none = err unreachable
latest decode (some b) = elim (decode (take (2 ^ 20) b.bytes)) [
  | none ↦ err unexpected
  | some r ↦ release_of r
]

abbrev pub sums_file : Str
sums_file = codes "SHA256SUMS.txt"

abbrev pub add_char : ℕ → List Str → List Str
add_char c [] = (c ∷ []) ∷ []
add_char c (w ∷ ws) = (c ∷ w) ∷ ws

abbrev pub drop_blank : List Str → List Str
drop_blank ([] ∷ ws) = ws
drop_blank ws = ws

-- The words of a text with the start of the word that it begins in; an empty one stands for none.
unfoldable pub words : Str → List Str
words [] = [] ∷ []
words (c ∷ s) = let rest = words s in if is_space c then [] ∷ drop_blank rest else add_char c rest

-- `strings.Fields` on bytes: the spaces outside ASCII, U+0085 and U+00A0 among them, divide
-- nothing.
unfoldable pub fields : Str → List Str
unfolding words is_space
fields s = drop_blank (words s)

unfoldable pub trim_star : Str → Str
trim_star [] = []
trim_star (c ∷ s) = if c == b'*' then s else c ∷ s

-- One round of the loop over the lines: the sum wanted so far, and after the line.
abbrev pub sum_in : Str → List Str → Str → Str
sum_in name (sum ∷ file ∷ []) want = if trim_star file == name then map to_lower sum else want
sum_in name _ want = want

unfoldable pub sum_of : Str → List Str → Str → Str
unfolding fields trim_star to_lower
sum_of name [] want = want
sum_of name (line ∷ lines) want = sum_of name lines (sum_in name (fields line) want)

unfoldable pub wanted_sum : Str → Str → Str
unfolding sum_of split
wanted_sum name sums = sum_of name (split 10 (take (64 * 2 ^ 10) sums)) []

-- What was written to the file, and how the call ended.
abbrev pub Fetched : Type 0
Fetched = Str × Option UpdateError

module _ (hs : Hashes) where
  abbrev pub checked : Str → Option Body → Fetched
  checked want none = ([], some unreachable)
  checked want (some b) =
      if not b.whole
      then (b.bytes, some broken_off)
      else if hs.sha256_hex b.bytes == want
      then (b.bytes, none)
      else (b.bytes, some damaged)

  abbrev pub with_sums : Str → Option Body → Option Body → Fetched
  with_sums name none body = ([], some unreachable)
  with_sums name (some sums) body =
      if not sums.whole
      then ([], some broken_off)
      else if not (length (wanted_sum name sums.bytes) == 64)
      then ([], some no_checksum)
      else checked (wanted_sum name sums.bytes) body

  -- `Fetch`, where `get` is what the addresses answer.
  unfoldable pub fetch : (Str → Option Body) → Release → Str → Fetched
  unfolding wanted_sum
  fetch get rel name = elim (lookup name rel.assets) [
    | none ↦ ([], some not_in_release)
    | some url ↦ elim (lookup sums_file rel.assets) [
      | none ↦ ([], some no_sums)
      | some sums_url ↦ with_sums name (get sums_url) (get url)
    ]
  ]

-- Some line has the sum, in either case of its letters, and the name, perhaps after a star.
abbrev pub is_entry : Str → Str → List Str → Bool
is_entry name sum (s ∷ file ∷ []) = (trim_star file == name) && (map to_lower s == sum)
is_entry name sum _ = false

unfoldable pub lists : Str → Str → List Str → Bool
lists name sum [] = false
lists name sum (line ∷ lines) = is_entry name sum (fields line) || lists name sum lines

sum_in-is_entry :
    (name : Str) (line : List Str) (want : Str)
    → (sum_in name line want ≡ want) ⊎ (is_entry name (sum_in name line want) line ≡ true)
sum_in-is_entry name [] want = inl refl
sum_in-is_entry name (s ∷ []) want = inl refl
sum_in-is_entry name (s ∷ file ∷ []) want = ground (arith, eq_refl (map to_lower s))
sum_in-is_entry name (s ∷ file ∷ x ∷ r) want = inl refl

or_left : (b c : Bool) → b ≡ true → (b || c) ≡ true
or_left b c h = ground arith

or_right : (b c : Bool) → c ≡ true → (b || c) ≡ true
or_right b c h = ground arith

sum_of-lists :
    (name : Str) (lines : List Str) (want : Str)
    → (sum_of name lines want ≡ want) ⊎ (lists name (sum_of name lines want) lines ≡ true)
unfolding sum_of lists
sum_of-lists name [] want = inl refl
sum_of-lists name (line ∷ lines) want =
    let next = sum_in name (fields line) want in
    elim (sum_of-lists name lines next) [
      | inr later ↦ inr (or_right (is_entry name (sum_of name lines next) (fields line)) _ later)
      | inl e ↦ elim (sum_in-is_entry name (fields line) want) [
        | inl kept ↦ inl (e ∙ kept)
        | inr entry ↦ inr (
            subst (λ (v : Str). (is_entry name v (fields line) || lists name v lines) ≡ true)
              (sym e) (or_left _ (lists name next lines) entry))
      ]
    ]

wanted_sum-lists :
    (name sums : Str)
    → (length (wanted_sum name sums) == 64) ≡ true
    → lists name (wanted_sum name sums) (split 10 (take (64 * 2 ^ 10) sums)) ≡ true
unfolding wanted_sum
wanted_sum-lists name sums h = elim (sum_of-lists name (split 10 (take (64 * 2 ^ 10) sums)) []) [
  | inl e ↦ absurd (ground (arith, ap length e))
  | inr l ↦ l
]

checked-none :
    (hs : Hashes) (want w : Str) (body : Option Body)
    → checked hs want body ≡ (w, none)
    → (body ≡ some (record { bytes = w; whole = true })) × (hs.sha256_hex w ≡ want)
checked-none hs want w none h = absurd (ground (arith, h))
checked-none hs want w (some b) h = ground (arith, bytes_eq_iff (hs.sha256_hex b.bytes) want)

with_sums-none :
    (hs : Hashes) (name w : Str) (sums body : Option Body)
    → with_sums hs name sums body ≡ (w, none)
    → (text : Str) × (body ≡ some (record { bytes = w; whole = true }))
      × (sums ≡ some (record { bytes = text; whole = true }))
      × (lists name (hs.sha256_hex w) (split 10 (take (64 * 2 ^ 10) text)) ≡ true)
with_sums-none hs name w none body h = absurd (ground (arith, h))
with_sums-none hs name w (some sums) body h =
    elim (Bool-cases (length (wanted_sum name sums.bytes) == 64)) [
      | inl long ↦
          let c = checked-none hs (wanted_sum name sums.bytes) w body (ground (arith, h, long)) in
          (sums.bytes, c.0, ground (arith, h), rw (c.1) (wanted_sum-lists name sums.bytes long))
      | inr short ↦ absurd (ground (arith, h, short))
    ]

-- A download that ends without an error wrote the whole file that the release has under the name,
-- and the SHA-256 of what was written stands beside the name in the list of sums of the release.
pub fetch-lists :
    (hs : Hashes) (get : Str → Option Body) (rel : Release) (name w : Str)
    → fetch hs get rel name ≡ (w, none)
    → (url : Str) × (sums_url : Str) × (sums : Str) × (lookup name rel.assets ≡ some url)
      × (get url ≡ some (record { bytes = w; whole = true }))
      × (lookup sums_file rel.assets ≡ some sums_url)
      × (get sums_url ≡ some (record { bytes = sums; whole = true }))
      × (lists name (hs.sha256_hex w) (split 10 (take (64 * 2 ^ 10) sums)) ≡ true)
unfolding fetch
fetch-lists hs get rel name w h = elim (Option-cases (lookup name rel.assets)) [
  | inl e ↦ absurd (ground (arith, e, h))
  | inr (url, e) ↦ elim (Option-cases (lookup sums_file rel.assets)) [
    | inl f ↦ absurd (ground (arith, e, f, h))
    | inr (sums_url, f) ↦
        let g : fetch hs get rel name ≡ with_sums hs name (get sums_url) (get url) =
          rw (fetch, e, f) refl in
        let r = with_sums-none hs name w (get sums_url) (get url) (sym g ∙ h) in
        (url, sums_url, r.0, e, r.1, f, r.2, r.3)
  ]
]
