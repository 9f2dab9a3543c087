-- ===== src/Tests/Updates.antt =====
-- Updates: versions, and a download.
use void_bridge.Base.{
  ◌≡◌, refl, true, [], ◌∷◌, ◌++◌, Option, none, some, Str, codes, bytes_eq, take, ◌*◌, ◌^◌,
  if◌then◌else◌, ◌==◌, str_eq, decimal, arith,
}
use void_bridge.Base.Dict.{lookup}
use void_bridge.Protocol.Code.{trim_space, is_space}
use void_bridge.Update.Version.{newer, split}
use void_bridge.Update.Tag
use void_bridge.Protocol.Message.{str_lt}
use void_bridge.Update.Fetch.{Body, Release, fetch, fetch-lists, lists, sums_file}
use void_bridge.Tests.Cipher.{plain_hashes}

newer-tag_example :
    newer (codes "v1.10.0") (codes "v1.10.0-rc")
    ≡ str_lt (1 ∷ 10 ∷ 0 ∷ 0 ∷ []) (1 ∷ 10 ∷ 0 ∷ 1 ∷ [])
unfolding bytes_eq decimal is_space
newer-tag_example =
    Tag.newer-tag 1 10 0 1 10 0 [] (codes "rc") (omega arith) (omega arith) (omega arith)
      (omega arith) (omega arith) (omega arith) tt (refl, (refl, tt))

newer_by_number : newer (codes "v1.10.0") (codes "1.9.3") ≡ true
unfolding newer trim_space bytes_eq
newer_by_number = refl

beta_is_older : newer (codes "v1.2.3") (codes "v1.2.3-beta.1") ≡ true
unfolding newer trim_space bytes_eq
beta_is_older = refl

abbrev file : Str
file = codes "abcdefabcdefabcdabcdefabcdefabcdabcdefabcdefabcdabcdefabcdefabcd"

abbrev sums : Str
sums = file ++ codes " *setup.exe"

abbrev release : Release
release = record {
  version = codes "v1.2.3";
  page = [];
  assets = (codes "setup.exe", codes "u1") ∷ (sums_file, codes "u2") ∷ [];
}

abbrev web : Str → Option Body
web url =
    if url == codes "u1"
    then some (record { bytes = file; whole = true })
    else some (record { bytes = sums; whole = true })

downloaded : fetch plain_hashes web release (codes "setup.exe") ≡ (file, none)
unfolding fetch lookup bytes_eq take
downloaded = refl

fetch-lists_example :
    (url : Str) × (sums_url : Str) × (text : Str) × (lookup (codes "setup.exe") release.assets
      ≡ some url)
    × (web url ≡ some (record { bytes = file; whole = true }))
    × (lookup sums_file release.assets ≡ some sums_url)
    × (web sums_url ≡ some (record { bytes = text; whole = true }))
    × (lists (codes "setup.exe") (plain_hashes.sha256_hex file) (split 10 (take (64 * 2 ^ 10) text))
        ≡ true)
fetch-lists_example = fetch-lists plain_hashes web release (codes "setup.exe") file downloaded
