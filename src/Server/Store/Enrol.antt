-- ===== src/Server/Store/Enrol.antt =====
-- Who may create an account, and how often an invite can be used.
use void_bridge.Base.{
  ℕ, ◌+◌, ◌-◌, ◌≡◌, ◌≢◌, refl, Bool, true, false, ◌&&◌, List, [], ◌∷◌, Option, none, some, Str,
  arith, inl, inr, Option-cases, Bool-cases, if◌then◌else◌, bytes_eq_iff, str_eq, ◌==◌, length,
  nat_beq, ◌∙◌, eq_refl, leb,
}
use void_bridge.Base.Dict.{lookup, insert, lookup-insert, lookup-delete}
use void_bridge.Protocol.Crypto.{Hashes}
use void_bridge.Protocol.Code.{normalize_username, normalize_code}
use void_bridge.Server.Store.{
  User, Invite, Store, Error, Result, ok, err, unsaved, bad_invite, bad_username, bad_auth_key,
  save, register, enrol, spend, usable_invite, is_username, new_user, is_first, is_expired,
}
use void_bridge.Server.Store.Sound.{IsSound}
use void_bridge.Server.Store.Keep.{usable-found, register-IsSound, register_cases, Held}

-- The account that a result holds, saved or not.
abbrev pub account : Result User → Option User
account (ok u) = some u
account (err e) = none
account (unsaved u) = some u

-- The uses that are left of an invite.
abbrev pub uses_of_invite : Option Invite → ℕ
uses_of_invite none = 0
uses_of_invite (some i) = i.uses_left

abbrev pub credit : Str → Store → ℕ
credit c s = uses_of_invite (lookup c s.mem.invites)

module _ (hs : Hashes) where
  -- A call of `Register` with the arguments of one request.
  pub record Attempt : Type 0 where
    pub fails : Bool
    pub now : ℕ
    pub raw : Str
    pub key : Str
    pub code : Str

  abbrev pub admitted : Option User → Bool
  admitted none = false
  admitted (some _) = true

  enrol-refused :
      (f : Bool) (now : ℕ) (name key code : Str) (inv : Option Invite) (s : Store)
      → account (enrol hs f now name key code inv s).1 ≡ none
      → (enrol hs f now name key code inv s).0 ≡ s
  unfolding enrol save
  enrol-refused f now name key code inv s h = ground arith

  -- A registration that gives no account changes nothing.
  pub register-refused :
      (f : Bool) (now : ℕ) (raw key code : Str) (need : Bool) (s : Store)
      → account (register hs f now raw key code need s).1 ≡ none
      → (register hs f now raw key code need s).0 ≡ s
  register-refused f now raw key code need s =
      register_cases hs f now raw key code need s (λ r. account r.1 ≡ none → r.0 ≡ s) (λ e h. refl)
        (λ inv good held. enrol-refused f now (normalize_username raw) key code inv s)

  -- What is held under the code `c` after a registration with an invite: the invite has one use
  -- less, or is gone with its last one; any other is as before.
  abbrev pub left : Str → Option Invite → Str → Option Invite → Option Invite
  left code none c before = before
  left code (some i) c before =
      if normalize_code code == c
      then if leb i.uses_left 1 then none else some (record i { uses_left = i.uses_left - 1 })
      else before

  -- The invite names the code under which it is held.
  abbrev pub IsNamed : Str → Option Invite → Type 0
  IsNamed code none = Unit {0}
  IsNamed code (some i) = i.code ≡ normalize_code code

  spend-left :
      (code c : Str) (inv : Option Invite) (s : Store)
      → IsNamed code inv
      → lookup c (spend (normalize_code code) inv s).mem.invites
        ≡ left code inv c (lookup c s.mem.invites)
  unfolding spend
  spend-left code c none s named = refl
  spend-left code c (some i) s named =
      let k = normalize_code code in
      let spent : Invite = record i { uses_left = i.uses_left - 1 } in
      ground (
        arith,
        lookup-insert k c spent s.mem.invites,
        lookup-delete i.code c (insert k spent s.mem.invites),
        bytes_eq_iff k c,
      )

  Held-IsNamed :
      (code : Str) (inv : Option Invite) (s : Store)
      → IsSound s.mem
      → Held code inv s
      → IsNamed code inv
  Held-IsNamed code none s v held = tt
  Held-IsNamed code (some i) s v held = (v.invites_sound.coded (normalize_code code) i held).0

  -- What an accepted enrolment does.
  pub record Enrolled (name code : Str) (inv : Option Invite) (s s' : Store) (u : User)
      : Type 0 where
    pub its_name : u.name ≡ name
    pub its_admin : u.admin ≡ is_first s
    pub was_free : lookup name s.mem.users ≡ none
    pub is_there : lookup name s'.mem.users ≡ some u
    pub others : (j : Str) → j ≢ name → lookup j s'.mem.users ≡ lookup j s.mem.users
    pub invites : (c : Str) → lookup c s'.mem.invites ≡ left code inv c (lookup c s.mem.invites)
    pub not_first : is_first s' ≡ false

  pub enrol-state :
      (f : Bool) (now : ℕ) (name key code : Str) (inv : Option Invite) (s : Store)
      → lookup name s.mem.users ≡ none
      → let u = new_user hs now name key (is_first s) in
        let r = enrol hs f now name key code inv s in
        (account r.1 ≡ some u)
        × ((r.0).mem.users ≡ insert name u s.mem.users)
        × ((r.0).mem.invites ≡ (spend (normalize_code code) inv s).mem.invites)
  unfolding enrol save spend
  enrol-state f now name key code inv s e = ground arith

  insert-not_first :
      (k : Str) (u : User) (us : List (Str × User)) → nat_beq (length (insert k u us)) 0 ≡ false
  unfolding insert
  insert-not_first k u [] = ground arith
  insert-not_first k u (e ∷ us) = ground arith

  enrol-Enrolled :
      (f : Bool) (now : ℕ) (name key code : Str) (inv : Option Invite) (s : Store) (u : User)
      → IsNamed code inv
      → account (enrol hs f now name key code inv s).1 ≡ some u
      → Enrolled name code inv s (enrol hs f now name key code inv s).0 u
  enrol-Enrolled f now name key code inv s u named h =
      elim (Option-cases (lookup name s.mem.users)) [
        | inr (w, e) ↦ absurd (unfold enrol in (ground arith))
        | inl e ↦
            let (made, users, invites) = enrol-state f now name key code inv s e in
            let v = new_user hs now name key (is_first s) in
            let same : v ≡ u = ground arith in
            record {
              its_name = rw (← same) refl;
              its_admin = rw (← same) refl;
              was_free = e;
              is_there =
                  rw users (lookup-insert name name v s.mem.users ∙ rw (eq_refl name, same) refl);
              others = λ j n.
                  rw users
                    (lookup-insert name j v s.mem.users ∙ ground (arith, bytes_eq_iff name j));
              invites = λ c. rw invites (spend-left code c inv s named);
              not_first = rw users (insert-not_first name v s.mem.users);
            }
      ]

  -- Where an invite is needed, a registration is refused, or it enrols with a usable invite.
  invited_cases {ℓ} :
      (f : Bool) (now : ℕ) (raw key code : Str) (s : Store)
      → (P : Store × Result User → Type ℓ) → is_first s ≡ false
      → ((e : Error) → P (s, err e))
      → ((i : Invite)
          → lookup (normalize_code code) s.mem.invites ≡ some i
          → is_expired now i ≡ false
          → P (enrol hs f now (normalize_username raw) key code (some i) s))
      → P (register hs f now raw key code true s)
  unfolding register
  invited_cases f now raw key code s P later refused enrolled =
      elim (Bool-cases (is_username (normalize_username raw))) [
        | inr bad ↦ rw (bad, register) (refused bad_username)
        | inl good ↦ elim (Bool-cases (nat_beq (length key) 32)) [
          | inr bad ↦ rw (good, bad, register) (refused bad_auth_key)
          | inl fits ↦ elim (Option-cases (usable_invite now code s)) [
            | inl bad ↦ rw (good, fits, later, bad, register) (refused bad_invite)
            | inr (i, e) ↦
                let (held, _, fresh) = usable-found now code s i e in
                rw (good, fits, later, e, register) (enrolled i held fresh)
          ]
        ]
      ]

  abbrev used : Str → Str → Result User → ℕ
  used c code r = if admitted (account r) && (normalize_code code == c) then 1 else 0

  -- After the first account, an accepted registration takes one use of the invite that it names
  -- and none of another; a refused one takes none.
  register-credit :
      (f : Bool) (now : ℕ) (raw key code c : Str) (s : Store)
      → IsSound s.mem
      → is_first s ≡ false
      → let r = register hs f now raw key code true s in
        (credit c r.0 + used c code r.1 ≡ credit c s) × (is_first r.0 ≡ false)
  register-credit f now raw key code c s v later =
      invited_cases f now raw key code s
        (λ r. (credit c r.0 + used c code r.1 ≡ credit c s) × (is_first r.0 ≡ false)) later
        (λ e. (omega arith, later)) (λ i held fresh. enrolled i held)
    where
      enrolled :
          (i : Invite)
          → lookup (normalize_code code) s.mem.invites ≡ some i
          → let r = enrol hs f now (normalize_username raw) key code (some i) s in
            (credit c r.0 + used c code r.1 ≡ credit c s) × (is_first r.0 ≡ false)
      enrolled i held =
          elim (Option-cases
            (account (enrol hs f now (normalize_username raw) key code (some i) s).1)) [
              | inl no_account ↦
                  rw
                    (
                      no_account,
                      enrol-refused f now (normalize_username raw) key code (some i) s no_account,
                    )
                    (omega arith, later)
              | inr (u, e) ↦
                  let (named, uses) = v.invites_sound.coded (normalize_code code) i held in
                  let d =
                    enrol-Enrolled f now (normalize_username raw) key code (some i) s u named e in
                  (
                    rw (e, d.invites c)
                        (ground (arith, held, uses, bytes_eq_iff (normalize_code code) c)),
                    d.not_first,
                  )
            ]

  abbrev attempt : Attempt → Store → Store × Result User
  attempt a s = register hs a.fails a.now a.raw a.key a.code true s

  -- How many accounts a list of requests creates with the invite `c`, and the store after them.
  unfoldable pub admissions : Str → List Attempt → Store → ℕ
  admissions c [] s = 0
  admissions c (a ∷ as') s = used c a.code (attempt a s).1 + admissions c as' (attempt a s).0

  unfoldable pub attempts : List Attempt → Store → Store
  attempts [] s = s
  attempts (a ∷ as') s = attempts as' (attempt a s).0

  -- In a well-formed store that has an account and needs invites, any sequence of registrations
  -- creates as many accounts with an invite as it takes uses off it. So an invite with n uses
  -- admits n at most.
  pub admissions-credit :
      (c : Str) (as' : List Attempt) (s : Store)
      → IsSound s.mem
      → is_first s ≡ false
      → admissions c as' s + credit c (attempts as' s) ≡ credit c s
  unfolding admissions attempts
  admissions-credit c [] s v later = omega arith
  admissions-credit c (a ∷ as') s v later =
      let (one, still) = register-credit a.fails a.now a.raw a.key a.code c s v later in
      let v' = register-IsSound hs a.fails a.now a.raw a.key a.code true s v in
      omega (arith, one, admissions-credit c as' (attempt a s).0 v' still)

  -- In a well-formed store, an accepted registration has a well-formed name that was free, creates
  -- that account and no other, and makes it an admin exactly if it is the first account. It leaves
  -- all invites as they are, or it takes one use of the invite that is held under the code it came
  -- with, which is deleted with its last use, and leaves every other invite as it is.
  pub register-Enrolled :
      (f : Bool) (now : ℕ) (raw key code : Str) (need : Bool) (s : Store) (u : User)
      → IsSound s.mem
      → account (register hs f now raw key code need s).1 ≡ some u
      → (inv : Option Invite) × (is_username (normalize_username raw) ≡ true)
        × Held code inv s
        × Enrolled (normalize_username raw) code inv s (register hs f now raw key code need s).0 u
  register-Enrolled f now raw key code need s u v =
      register_cases hs f now raw key code need s
        (λ r.
          account r.1 ≡ some u
          → (inv : Option Invite) × (is_username (normalize_username raw) ≡ true)
            × Held code inv s
            × Enrolled (normalize_username raw) code inv s r.0 u)
        (λ e h. cc)
        (λ inv good held h. (
          inv,
          good,
          held,
          enrol-Enrolled f now (normalize_username raw) key code inv s u
              (Held-IsNamed code inv s v held) h,
        ))
