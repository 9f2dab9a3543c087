-- ===== src/Files/Received.antt =====
-- internal/files/files.go: a whole transfer into the folder, from `Begin` on.
use void_bridge.Base.{
  ℕ, ◌+◌, ◌^◌, ◌≡◌, ◌≤◌, ◌<◌, refl, sym, ap, ◌∙◌, true, false, List, [], ◌∷◌, ◌++◌, append-nil,
  append_assoc, none, some, Str, str_eq, ◌==◌, arith, if◌then◌else◌, length, take,
  take-length-append, bytes_eq_iff, eq_refl,
}
use void_bridge.Base.Dict.{lookup, insert, lookup-insert, lookup-delete}
use void_bridge.Files.Name.{safe_name}
use void_bridge.Files.Folder.{Folder, Writer, begin, write, commit, abort, bytes_of}
use void_bridge.Files.Saved.{commit-stores}

-- The pieces one after the other, each taken whole.
unfoldable pub write_all : List Str → Writer → Folder → Folder
write_all [] w f = f
write_all (p ∷ ps) w f = write_all ps w (write (length p) true p w f).0

unfoldable pub joined : List Str → Str
joined [] = []
joined (p ∷ ps) = p ++ joined ps

abbrev pub begun : Str → List ℕ → Writer
begun temp name = record { temp = temp; name = safe_name name; done = false }

-- The folder before the end of a transfer.
abbrev pub arrived : Str → List ℕ → List Str → Folder → Folder
arrived temp name pieces f = write_all pieces (begun temp name) (begin true true true temp name f).0

take-length : (p : Str) → take (length p) p ≡ p
take-length p = ap (take (length p)) (sym (append-nil p)) ∙ take-length-append p []

lookup-write :
    (q : Str) (w : Writer) (f : Folder) (s p : Str)
    → w.done ≡ false
    → lookup w.temp f ≡ some s
    → lookup p (write (length q) true q w f).0 ≡ (if w.temp == p then some (s ++ q) else lookup p f)
unfolding write
lookup-write q w f s p open_ there =
    let new = bytes_of (lookup w.temp f) ++ take (length q) q in
    ground (arith, open_, there, lookup-insert w.temp p new f, take-length q)

lookup-write_all :
    (pieces : List Str) (w : Writer) (f : Folder) (s p : Str)
    → w.done ≡ false
    → lookup w.temp f ≡ some s
    → lookup p (write_all pieces w f)
      ≡ (if w.temp == p then some (s ++ joined pieces) else lookup p f)
unfolding write_all joined
lookup-write_all [] w f s p open_ there = ground (arith, there, append-nil s, bytes_eq_iff w.temp p)
lookup-write_all (q ∷ ps) w f s p open_ there =
    let f' = (write (length q) true q w f).0 in
    let now = λ (r : Str). lookup-write q w f s r open_ there in
    ground (
      arith,
      lookup-write_all ps w f' (s ++ q) p open_,
      now w.temp,
      now p,
      eq_refl w.temp,
      append_assoc s q (joined ps),
    )

length-insert : (k v : Str) (f : Folder) → length (insert k v f) ≤ length f + 1
unfolding insert
length-insert k v [] = omega arith
length-insert k v ((j, x) ∷ f) = ground (arith, length-insert k v f)

length-insert-some :
    (k v s : Str) (f : Folder) → lookup k f ≡ some s → length (insert k v f) ≡ length f
unfolding insert lookup
length-insert-some k v s [] h = cc
length-insert-some k v s ((j, x) ∷ f) h = ground (arith, length-insert-some k v s f)

length-write_all :
    (pieces : List Str) (w : Writer) (f : Folder) (s : Str)
    → w.done ≡ false
    → lookup w.temp f ≡ some s
    → length (write_all pieces w f) ≡ length f
unfolding write_all
length-write_all [] w f s open_ there = refl
length-write_all (q ∷ ps) w f s open_ there =
    let new = bytes_of (lookup w.temp f) ++ take (length q) q in
    let written : (write (length q) true q w f).0 ≡ insert w.temp new f =
      unfold write in (rw open_ refl) in
    length-write_all ps w (write (length q) true q w f).0 (s ++ q) open_
      (lookup-write q w f s w.temp open_ there ∙ ground (arith, eq_refl w.temp))
    ∙ ap length written
    ∙ length-insert-some w.temp new s f there

-- A file that arrives in pieces, under a temporary name that no file has, in a folder of less than
-- 10 ^ 18 files: once it is committed, the folder has exactly one file more, under a name that no
-- file had before, with the pieces one after the other as its bytes; every other file is as it
-- was. If the transfer is aborted instead, every name has the file that it had before.
pub arrived-commit :
    (temp : Str) (name : List ℕ) (pieces : List Str) (f : Folder)
    → lookup temp f ≡ none
    → length f < 10 ^ 18
    → ((final : Str) × (lookup final f ≡ none)
        × ((commit true true (begun temp name) (arrived temp name pieces f)).final ≡ some final)
        × ((p : Str)
            → lookup p (commit true true (begun temp name) (arrived temp name pieces f)).folder
              ≡ (if final == p then some (joined pieces) else lookup p f)))
      × ((p : Str) → lookup p (abort (begun temp name) (arrived temp name pieces f)).0 ≡ lookup p f)
unfolding begin
arrived-commit temp name pieces f fresh few =
    let w = begun temp name in
    let f0 = insert temp [] f in
    let f1 = write_all pieces w f0 in
    let there : lookup temp f0 ≡ some [] =
      lookup-insert temp temp [] f ∙ ground (arith, eq_refl temp) in
    let now = λ (p : Str). lookup-write_all pieces w f0 [] p refl there in
    let (final, free, stored, fine, ended, all) =
      commit-stores w f1 (joined pieces) refl (now temp ∙ ground (arith, eq_refl temp))
        (omega (arith, length-write_all pieces w f0 [] refl there, length-insert temp [] f)) in
    (
      (
        final,
        ground
            (arith, free, now final, lookup-insert temp final [] f, fresh, bytes_eq_iff temp final),
        stored,
        λ p. ground (
          arith,
          all p,
          now p,
          lookup-insert temp p [] f,
          fresh,
          free,
          now final,
          bytes_eq_iff temp p,
          bytes_eq_iff final p,
        ),
      ),
      λ p.
          unfold abort in
          (lookup-delete temp p f1
            ∙ ground (arith, now p, lookup-insert temp p [] f, fresh, bytes_eq_iff temp p)),
    )
