-- ===== src/Files/Saved.antt =====
-- internal/files/files.go: a free name is always found, and a file that has arrived is stored under
-- it, with all else in the folder as it was.
use void_bridge.Base.{
  ℕ, zero, suc, ◌+◌, ◌^◌, ◌≡◌, ◌≢◌, ◌≤◌, ◌<◌, refl, ap, ◌∙◌, Bool, true, false, not, List, [], ◌∷◌,
  ◌++◌, none, some, Str, str_eq, ◌==◌, arith, if◌then◌else◌, length, filterb, Bool-cases, inl, inr,
  bytes_eq_iff, decimal64, decimal_injective, Lacks-decimal, split_at_separator, length-filterb-le,
}
use void_bridge.Base.Dict.{lookup, insert, delete, lookup-insert, lookup-delete}
use void_bridge.Files.Name.{split_ext}
use void_bridge.Files.Folder.{
  Folder, numbered, search_from, unique_name, exists, unique_in, Writer, bytes_of, commit,
}

unfoldable pub is_in : Str → List Str → Bool
is_in p [] = false
is_in p (q ∷ qs) = if q == p then true else is_in p qs

abbrev without : Str → List Str → List Str
without p qs = filterb (λ q. not (q == p)) qs

length-without : (p : Str) (qs : List Str) → is_in p qs ≡ true → length (without p qs) < length qs
unfolding is_in filterb
length-without p [] h = cc
length-without p (q ∷ qs) h =
    ground (arith, length-without p qs, length-filterb-le (λ r. not (r == p)) qs)

is_in-without :
    (p q : Str) (qs : List Str) → is_in q qs ≡ true → q ≢ p → is_in q (without p qs) ≡ true
unfolding is_in filterb
is_in-without p q [] h n = cc
is_in-without p q (r ∷ qs) h n =
    ground (arith, is_in-without p q qs, bytes_eq_iff r q, bytes_eq_iff r p)

append-cancel : (s a b : Str) → s ++ a ≡ s ++ b → a ≡ b
append-cancel [] a b e = e
append-cancel (c ∷ s) a b e = append-cancel s a b (cc)

numbered_injective :
    (stem ext : Str) (i j : ℕ)
    → i < 10 ^ 20
    → j < 10 ^ 20
    → numbered stem ext i ≡ numbered stem ext j
    → i ≡ j
numbered_injective stem ext i j hi hj e =
    let x = decimal64 i ++ b')' ∷ ext in
    let y = decimal64 j ++ b')' ∷ ext in
    let open_paren = append-cancel stem (b' ' ∷ b'(' ∷ x) (b' ' ∷ b'(' ∷ y) e in
    let tail = append-cancel (b' ' ∷ b'(' ∷ []) x y open_paren in
    decimal_injective 20 i j hi hj
      (split_at_separator b')' (decimal64 i) (decimal64 j) ext ext
        (Lacks-decimal b')' 20 i (inl (omega arith))) (Lacks-decimal b')' 20 j (inl (omega arith)))
        tail).0

module _ (taken : Str → Bool) (stem ext : Str) where
  search_from-finds :
      (fuel i : ℕ) (names : List Str)
      → length names < fuel
      → i + fuel ≤ 10 ^ 20
      → ((j : ℕ)
          → i ≤ j
          → j < 10 ^ 20
          → taken (numbered stem ext j) ≡ true
          → is_in (numbered stem ext j) names ≡ true)
      → (p : Str) × (search_from taken stem ext fuel i ≡ some p) × (taken p ≡ false)
  unfolding search_from
  search_from-finds zero i names h le known = absurd (omega arith)
  search_from-finds (suc fuel) i names h le known =
      let p = numbered stem ext i in
      elim (Bool-cases (taken p)) [
        | inr free ↦ (p, rw free refl, free)
        | inl e ↦
            let seen = known i (omega arith) (omega arith) e in
            rw e (
              search_from-finds fuel (i + 1) (without p names)
                (omega (arith, length-without p names seen)) (omega arith)
                (λ j le' lt t.
                  is_in-without p (numbered stem ext j) names (known j (omega arith) lt t) (λ same.
                    absurd (omega (arith, numbered_injective stem ext j i lt (omega arith) same)))))
      ]

-- The loop for a free name ends: if the names that are taken are among finitely many, as many
-- rounds as there are names, and one more, find a name that is not taken. They are fewer than
-- 10 ^ 19, so that numbers have at most twenty digits.
pub unique_name-finds :
    (taken : Str → Bool) (names : List Str) (fuel : ℕ) (name : Str)
    → ((p : Str) → taken p ≡ true → is_in p names ≡ true)
    → length names < fuel
    → fuel ≤ 10 ^ 19
    → (p : Str) × (unique_name taken fuel name ≡ some p) × (taken p ≡ false)
unfolding unique_name
unique_name-finds taken names fuel name known h le = elim (Bool-cases (taken name)) [
  | inr free ↦ (name, rw free refl, free)
  | inl e ↦ rw e (
      search_from-finds taken (split_ext name).0 (split_ext name).1 fuel 2 names h (omega arith)
        (λ j le' lt. known (numbered (split_ext name).0 (split_ext name).1 j)))
]

abbrev names_of : Folder → List Str
names_of [] = []
names_of ((p, s) ∷ f) = p ∷ names_of f

length-names_of : (f : Folder) → length (names_of f) ≡ length f
length-names_of [] = refl
length-names_of ((p, s) ∷ f) = ap suc (length-names_of f)

exists-is_in : (f : Folder) (p : Str) → exists f p ≡ true → is_in p (names_of f) ≡ true
unfolding lookup is_in
exists-is_in [] p h = cc
exists-is_in ((q, s) ∷ f) p h = ground (arith, exists-is_in f p)

unique_in-finds :
    (f : Folder) (name : Str)
    → length f < 10 ^ 19
    → (p : Str) × (unique_in f name ≡ some p) × (lookup p f ≡ none)
unfolding unique_in
unique_in-finds f name h =
    let (p, e, free) =
      unique_name-finds (exists f) (names_of f) (suc (length f)) name (exists-is_in f)
        (omega (arith, length-names_of f)) (omega arith) in
    (p, e, ground (arith, free))

-- A writer that was not ended and whose file is there: if the system closes and renames it, the
-- file is stored under a name that no file had. The stored file has all that was written, the
-- temporary file is gone, every other file is as it was, and the writer is ended.
pub commit-stores :
    (w : Writer) (f : Folder) (written : Str)
    → w.done ≡ false
    → lookup w.temp f ≡ some written
    → length f < 10 ^ 19
    → (final : Str) × (lookup final f ≡ none)
      × ((commit true true w f).final ≡ some final)
      × ((commit true true w f).error ≡ none)
      × ((commit true true w f).writer ≡ record w { done = true })
      × ((p : Str)
          → lookup p (commit true true w f).folder
            ≡ (if final == p then some written else if w.temp == p then none else lookup p f))
unfolding commit
commit-stores w f written open_ there h =
    let (final, e, free) = unique_in-finds f w.name h in
    let folder : (commit true true w f).folder
        ≡ insert final (bytes_of (lookup w.temp f)) (delete w.temp f) =
      rw (open_, e) refl in
    let stored : (p : Str)
        → lookup p (commit true true w f).folder
          ≡ (if final == p then some written else if w.temp == p then none else lookup p f) =
      λ p.
        ap (lookup p) folder
        ∙ lookup-insert final p (bytes_of (lookup w.temp f)) (delete w.temp f)
        ∙ ground (arith, there, lookup-delete w.temp p f) in
    (final, free, rw (open_, e) refl, rw (open_, e) refl, rw (open_, e) refl, stored)
