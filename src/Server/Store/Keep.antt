-- ===== src/Server/Store/Keep.antt =====
-- Registration and sessions keep the data of the store well formed.
use void_bridge.Base.{
  ℕ, ◌-◌, ◌<◌, ◌≡◌, refl, Bool, true, false, not, Option, none, some, Str, arith, inl, inr,
  Option-cases, Bool-cases, leb, str_eq, nat_beq, length, ◌&&◌, ◌+◌, ltb,
}
use void_bridge.Base.Dict.{lookup, insert}
use void_bridge.Protocol.Crypto.{Hashes}
use void_bridge.Protocol.Code.{normalize_username, normalize_code}
use void_bridge.Server.Store.{
  User, Invite, Session, Store, Result, err, save, register, enrol, spend, usable_invite,
  new_session, authenticate, touch, touch_session, logout, is_username, with_users, is_expired,
  new_user, is_first, Error, bad_username, bad_auth_key, bad_invite, hour,
}
use void_bridge.Server.Store.Sound.{
  IsSound, InvitesSound, insert-UsersSound, insert-InvitesSound, spent-InvitesSound,
  delete-SessionsSound, insert-SessionsSound, touch-SessionsSound,
}

pub save-mem {ℓ} : {A : Type ℓ} (f : Bool) (a : A) (s : Store) → (save f a s).0.mem ≡ s.mem
unfolding save
save-mem f a s = ground arith

pub save-IsSound {ℓ} :
    {A : Type ℓ} (f : Bool) (a : A) (s : Store) → IsSound s.mem → IsSound (save f a s).0.mem
save-IsSound f a s v = rw (save-mem f a s) v

pub usable-found :
    (now : ℕ) (code : Str) (s : Store) (i : Invite)
    → usable_invite now code s ≡ some i
    → (lookup (normalize_code code) s.mem.invites ≡ some i)
      × (0 < i.uses_left)
      × (is_expired now i ≡ false)
unfolding usable_invite
usable-found now code s i h = ground arith

spend-InvitesSound :
    (k : Str) (i : Invite) (s : Store)
    → InvitesSound s.mem.invites
    → lookup k s.mem.invites ≡ some i
    → InvitesSound (spend k (some i) s).mem.invites
unfolding spend
spend-InvitesSound k i s v e =
    let (named, used) = v.coded k i e in
    elim (Bool-cases (leb i.uses_left 1)) [
      | inl last ↦ rw last (
          spent-InvitesSound k i.code (record i { uses_left = i.uses_left - 1 }) s.mem.invites v
            named)
      | inr more ↦ rw more (
          insert-InvitesSound k (record i { uses_left = i.uses_left - 1 }) s.mem.invites v named
            (ground arith))
    ]

pub spend-rest :
    (k : Str) (inv : Option Invite) (s : Store)
    → ((spend k inv s).mem.users ≡ s.mem.users) × ((spend k inv s).mem.sessions ≡ s.mem.sessions)
unfolding spend
spend-rest k inv s = ground arith

-- An invite that the store holds under the code.
abbrev pub Held : Str → Option Invite → Store → Type 0
Held code none s = Unit {0}
Held code (some i) s = lookup (normalize_code code) s.mem.invites ≡ some i

spend-Held-InvitesSound :
    (code : Str) (inv : Option Invite) (s : Store)
    → InvitesSound s.mem.invites
    → Held code inv s
    → InvitesSound (spend (normalize_code code) inv s).mem.invites
spend-Held-InvitesSound code none s v h = unfold spend in v
spend-Held-InvitesSound code (some i) s v h = spend-InvitesSound (normalize_code code) i s v h

module _ (hs : Hashes) where
  -- A registration is refused, or it enrols the user, with an invite that the store holds or none.
  pub register_cases {ℓ} :
      (f : Bool) (now : ℕ) (raw key code : Str) (need : Bool) (s : Store)
      → (P : Store × Result User → Type ℓ) → ((e : Error) → P (s, err e))
      → ((inv : Option Invite)
          → is_username (normalize_username raw) ≡ true
          → Held code inv s
          → P (enrol hs f now (normalize_username raw) key code inv s))
      → P (register hs f now raw key code need s)
  unfolding register
  register_cases f now raw key code need s P refused enrolled =
      elim (Bool-cases (is_username (normalize_username raw))) [
        | inr bad ↦ rw (bad, register) (refused bad_username)
        | inl good ↦ elim (Bool-cases (nat_beq (length key) 32)) [
          | inr bad ↦ rw (good, bad, register) (refused bad_auth_key)
          | inl fits ↦ elim (Bool-cases (need && not (is_first s))) [
            | inr free ↦ rw (good, fits, free, register) (enrolled none good tt)
            | inl needs ↦ elim (Option-cases (usable_invite now code s)) [
              | inl bad ↦ rw (good, fits, needs, bad, register) (refused bad_invite)
              | inr (i, e) ↦
                  rw (good, fits, needs, e, register)
                    (enrolled (some i) good (usable-found now code s i e).0)
            ]
          ]
        ]
      ]

  pub enrol-IsSound :
      (f : Bool) (now : ℕ) (name key code : Str) (inv : Option Invite) (s : Store)
      → IsSound s.mem
      → is_username name ≡ true
      → Held code inv s
      → IsSound (enrol hs f now name key code inv s).0.mem
  unfolding enrol
  enrol-IsSound f now name key code inv s v good held =
      elim (Option-cases (lookup name s.mem.users)) [
        | inr (_, e) ↦ rw (e, enrol) v
        | inl e ↦
            let u = new_user hs now name key (is_first s) in
            let added = with_users (insert name u s.mem.users) s in
            let (same_users, same_sessions) = spend-rest (normalize_code code) inv added in
            rw (e, enrol)
              (save-IsSound f u (spend (normalize_code code) inv added) (record {
                users_sound =
                    rw same_users (insert-UsersSound name u s.mem.users v.users_sound refl good);
                invites_sound = spend-Held-InvitesSound code inv added v.invites_sound (
                    elim inv as (λ i. Held code i s → Held code i added) [
                      | none ↦ λ h. h
                      | some _ ↦ λ h. h
                    ]
                      held);
                sessions_sound = rw same_sessions v.sessions_sound;
              }))
      ]

  pub register-IsSound :
      (f : Bool) (now : ℕ) (raw key code : Str) (need : Bool) (s : Store)
      → IsSound s.mem
      → IsSound (register hs f now raw key code need s).0.mem
  register-IsSound f now raw key code need s v =
      register_cases f now raw key code need s (λ r. IsSound (r.0).mem) (λ e. v)
        (λ inv good held. enrol-IsSound f now (normalize_username raw) key code inv s v good held)

  pub touch_session-IsSound :
      (f : Bool) (now : ℕ) (tok : Str) (se : Session) (s : Store)
      → IsSound s.mem
      → lookup (hs.sha256_hex tok) s.mem.sessions ≡ some se
      → IsSound (touch_session hs f now tok se s).mem
  unfolding touch_session
  touch_session-IsSound f now tok se s v e =
      let k = hs.sha256_hex tok in
      save-IsSound {0} {A = Unit {0}} f tt _ (record {
        users_sound = v.users_sound;
        invites_sound = v.invites_sound;
        sessions_sound = touch-SessionsSound k se now s.mem.sessions v.sessions_sound e;
      })

  pub authenticate-IsSound :
      (f : Bool) (now : ℕ) (tok : Str) (s : Store)
      → IsSound s.mem
      → IsSound (authenticate hs f now tok s).0.mem
  unfolding authenticate
  authenticate-IsSound f now tok s v =
      elim (Option-cases (lookup (hs.sha256_hex tok) s.mem.sessions)) [
        | inl e ↦ rw (e, authenticate) v
        | inr (se, e) ↦ elim (Option-cases (lookup se.user s.mem.users)) [
          | inl e' ↦ rw (e, e', authenticate) v
          | inr (u, e') ↦ elim (Bool-cases u.disabled) [
            | inl d ↦ rw (e, e', d, authenticate) v
            | inr d ↦ elim (Bool-cases (ltb (se.last_seen + hour) now)) [
              | inl late ↦
                  rw (e, e', d, late, authenticate) (touch_session-IsSound f now tok se s v e)
              | inr soon ↦ rw (e, e', d, soon, authenticate) v
            ]
          ]
        ]
      ]

  pub touch-IsSound :
      (f : Bool) (now : ℕ) (tok : Str) (s : Store)
      → IsSound s.mem
      → IsSound (touch hs f now tok s).mem
  unfolding touch
  touch-IsSound f now tok s v = elim (Option-cases (lookup (hs.sha256_hex tok) s.mem.sessions)) [
    | inl e ↦ rw (e, touch) v
    | inr (se, e) ↦ rw (e, touch) (touch_session-IsSound f now tok se s v e)
  ]

  pub new_session-IsSound :
      (f : Bool) (now : ℕ) (tok user dev name kind : Str) (s : Store)
      → IsSound s.mem
      → IsSound (new_session hs f now tok user dev name kind s).0.mem
  unfolding new_session
  new_session-IsSound f now tok user dev name kind s v = save-IsSound f tok _ (record {
    users_sound = v.users_sound;
    invites_sound = v.invites_sound;
    sessions_sound = insert-SessionsSound (hs.sha256_hex tok) _ s.mem.sessions v.sessions_sound;
  })

  pub logout-IsSound :
      (f : Bool) (tok : Str) (s : Store) → IsSound s.mem → IsSound (logout hs f tok s).0.mem
  unfolding logout
  logout-IsSound f tok s v = save-IsSound {0} {A = Unit {0}} f tt _ (record {
    users_sound = v.users_sound;
    invites_sound = v.invites_sound;
    sessions_sound = delete-SessionsSound (hs.sha256_hex tok) s.mem.sessions v.sessions_sound;
  })
