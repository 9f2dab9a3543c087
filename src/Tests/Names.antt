-- ===== src/Tests/Names.antt =====
-- Names of files that arrive.
use void_bridge.Base.{
  ◌≡◌, ◌≤◌, refl, codes, List, [], ◌∷◌, Bool, true, false, none, some, Str, bytes_eq, All, length,
  arith, if◌then◌else◌, ◌==◌, str_eq, decimal,
}
use void_bridge.Base.Dict.{lookup}
use void_bridge.Files.Name.{safe_name}
use void_bridge.Files.Safe.{IsPlain, is_visible, safe_name-IsPlain}
use void_bridge.Files.Folder.{Folder, unique_name, commit, abort}
use void_bridge.Files.Saved.{is_in, unique_name-finds}
use void_bridge.Files.Received.{begun, arrived, joined, arrived-commit}

traversal : safe_name (codes "../../etc/pass:wd. ") ≡ codes "pass_wd"
unfolding safe_name bytes_eq
traversal = refl

windows_device : safe_name (codes "C:\\x\\nul.txt") ≡ codes "_nul.txt"
unfolding safe_name bytes_eq
windows_device = refl

device_with_two_extensions : safe_name (codes "NUL.tar.gz") ≡ codes "NUL.tar.gz"
unfolding safe_name bytes_eq
device_with_two_extensions = refl

hidden : safe_name (codes "...") ≡ codes "file"
unfolding safe_name bytes_eq
hidden = refl

abbrev long_name : Str
long_name = codes "/tmp/.hidden|name"

safe_name-IsPlain_example :
    All IsPlain (safe_name long_name)
    × (1 ≤ length (safe_name long_name))
    × (length (safe_name long_name) ≤ 200)
    × (is_visible (safe_name long_name) ≡ true)
safe_name-IsPlain_example = safe_name-IsPlain long_name

abbrev report : Str
report = codes "report.pdf"

abbrev second_report : Str
second_report = codes "report (2).pdf"

abbrev is_taken : Str → Bool
is_taken p = if report == p then true else second_report == p

third_is_free : unique_name is_taken 3 report ≡ some (codes "report (3).pdf")
unfolding unique_name bytes_eq decimal
third_is_free = refl

taken_names : (p : Str) → is_taken p ≡ true → is_in p (report ∷ second_report ∷ []) ≡ true
unfolding is_in
taken_names p h = ground (arith, h)

unique_name-finds_example :
    (p : Str) × (unique_name is_taken 3 report ≡ some p) × (is_taken p ≡ false)
unique_name-finds_example =
    unique_name-finds is_taken (report ∷ second_report ∷ []) 3 report taken_names (omega arith)
      (omega arith)

abbrev folder : Folder
folder = (report, codes "old") ∷ []

abbrev pieces : List Str
pieces = codes "ne" ∷ codes "w" ∷ []

abbrev temp : Str
temp = codes ".voidbridge-1.part"

arrived-commit_example :
    ((final : Str) × (lookup final folder ≡ none)
      × ((commit true true (begun temp report) (arrived temp report pieces folder)).final
          ≡ some final)
      × ((p : Str)
          → lookup p
              (commit true true (begun temp report) (arrived temp report pieces folder)).folder
            ≡ (if final == p then some (joined pieces) else lookup p folder)))
    × ((p : Str)
        → lookup p (abort (begun temp report) (arrived temp report pieces folder)).0
          ≡ lookup p folder)
unfolding lookup bytes_eq
arrived-commit_example = arrived-commit temp report pieces folder refl (omega arith)
