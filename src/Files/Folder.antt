-- ===== src/Files/Folder.antt =====
-- internal/files/files.go: the folder for received files, and the file that is being written. What
-- the system answers is an argument: whether a call succeeds, and how much of a write it takes.
use void_bridge.Base.{
  ℕ, zero, suc, ◌+◌, Bool, true, false, List, [], ◌∷◌, ◌++◌, Option, none, some, Str, str_eq,
  if◌then◌else◌, length, take, decimal64,
}
use void_bridge.Base.Dict.{lookup, insert, delete}
use void_bridge.Files.Name.{split_ext, safe_name}

-- The files of the folder, by their names.
abbrev pub Folder : Type 0
Folder = List (Str × Str)

abbrev pub numbered : Str → Str → ℕ → Str
numbered stem ext i = stem ++ b' ' ∷ b'(' ∷ (decimal64 i ++ b')' ∷ ext)

-- The loop of `uniquePath` from `i` on; `none` means that the fuel ran out.
unfoldable pub search_from : (Str → Bool) → Str → Str → ℕ → ℕ → Option Str
search_from taken stem ext zero i = none
search_from taken stem ext (suc fuel) i =
    let rest = search_from taken stem ext fuel (i + 1) in
    if taken (numbered stem ext i) then rest else some (numbered stem ext i)

-- `uniquePath`, below the folder; a name is taken unless the system says that it does not exist.
unfoldable pub unique_name : (Str → Bool) → ℕ → Str → Option Str
unfolding search_from split_ext
unique_name taken fuel name =
    if taken name then search_from taken (split_ext name).0 (split_ext name).1 fuel 2 else some name

abbrev pub exists : Folder → Str → Bool
exists f name = elim (lookup name f) [ none ↦ false | some bytes ↦ true ]

-- In a folder, one more round than there are files is enough.
unfoldable pub unique_in : Folder → Str → Option Str
unfolding unique_name
unique_in f name = unique_name (exists f) (suc (length f)) name

pub record Writer : Type 0 where
  pub temp : Str
  pub name : Str
  pub done : Bool

pub data FileError : Type 0 where
  no_folder system cancelled : FileError

-- `Begin`: the new file, whose name the system chooses, or an error.
unfoldable pub begin :
    (is_set made created : Bool)
    → (temp : Str) (meta_name : List ℕ) → Folder
    → Folder × (Option Writer × Option FileError)
unfolding safe_name
begin is_set made created temp meta_name f =
    if is_set
    then (if made
        then (if created
            then (
              insert temp [] f,
              (some (record { temp = temp; name = safe_name meta_name; done = false }), none),
            )
            else (f, (none, some system)))
        else (f, (none, some system)))
    else (f, (none, some no_folder))

abbrev pub bytes_of : Option Str → Str
bytes_of none = []
bytes_of (some s) = s

-- `Write`, of which the system takes so many bytes.
unfoldable pub write : ℕ → Bool → Str → Writer → Folder → Folder × Option FileError
write taken_bytes fine p w f = if w.done then (f, some cancelled) else (
  insert w.temp (bytes_of (lookup w.temp f) ++ take taken_bytes p) f,
  if fine then none else some system,
)

abbrev pub finished : Writer → Writer
finished w = record w { done = true }

pub record Committed : Type 0 where
  pub folder : Folder
  pub writer : Writer
  pub final : Option Str
  pub error : Option FileError

-- The end of `Commit`, under the name that is free.
abbrev pub renamed : Bool → Writer → Folder → Option Str → Committed
renamed fine w f none = record {
  folder = f;
  writer = finished w;
  final = none;
  error = some system;
}
renamed fine w f (some final) =
    if fine
    then record {
      folder = insert final (bytes_of (lookup w.temp f)) (delete w.temp f);
      writer = finished w;
      final = some final;
      error = none;
    }
    else record { folder = delete w.temp f; writer = finished w; final = none; error = some system }

unfoldable pub commit : (closed moved : Bool) → Writer → Folder → Committed
unfolding unique_in
commit closed moved w f =
    if w.done
    then record { folder = f; writer = w; final = none; error = some cancelled }
    else if closed
    then renamed moved w f (unique_in f w.name)
    else record { folder = delete w.temp f; writer = finished w; final = none; error = some system }

unfoldable pub abort : Writer → Folder → Folder × Writer
abort w f = if w.done then (f, w) else (delete w.temp f, finished w)
