-- ===== src/Server/Store/Access.antt =====
-- Which tokens the store accepts: new ones, replaced ones and revoked ones.
use void_bridge.Base.{
  ℕ, ◌≡◌, ◌≢◌, refl, Bool, true, false, List, [], ◌∷◌, Option, none, some, Str, arith,
  if◌then◌else◌, bytes_eq_iff, str_eq, ◌==◌, eq_refl, filterb, ◌∙◌,
}
use void_bridge.Base.Dict.{
  lookup, insert, delete, sweep, unswept, lookup-insert, lookup-delete, lookup-sweep,
}
use void_bridge.Protocol.Crypto.{Hashes}
use void_bridge.Server.Store.{
  User, Session, Store, Result, ok, err, bad_login, disabled_account, save, new_session,
  authenticate, logout, with_sessions, is_device, seen_at,
}
use void_bridge.Server.Store.Admin.{revoke_device, delete_user, values}
use void_bridge.Server.Store.Sound.{IsSound}
use void_bridge.Server.Store.Keep.{save-mem}

sweep_nothing :
    (p : Session → Bool) (m : List (Str × Session)) → filterb p (values m) ≡ [] → sweep p m ≡ m
unfolding sweep filterb
sweep_nothing p [] h = refl
sweep_nothing p ((k, se) ∷ m) h = ground (arith, sweep_nothing p m)

pub revoke_device-sessions :
    (f : Bool) (user dev : Str) (s : Store)
    → (revoke_device f user dev s).0.mem.sessions ≡ sweep (is_device user dev) s.mem.sessions
unfolding revoke_device save
revoke_device-sessions f user dev s =
    ground (arith, sweep_nothing (is_device user dev) s.mem.sessions)

pub delete_user-sessions :
    (f : Bool) (name : Str) (s : Store) (u : User)
    → lookup name s.mem.users ≡ some u
    → (delete_user f name s).0.mem.sessions ≡ sweep (λ se. se.user == name) s.mem.sessions
unfolding delete_user save
delete_user-sessions f name s u e = ground arith

module _ (hs : Hashes) where
  -- What `authenticate` answers, from the session under the token's hash and its user.
  abbrev pub answer : ℕ → Option Session → List (Str × User) → Result (Session × User)
  answer now none us = err bad_login
  answer now (some se) us = elim (lookup se.user us) [
    | none ↦ err bad_login
    | some u ↦ if u.disabled then err disabled_account else ok (seen_at now se, u)
  ]

  pub authenticate-answer :
      (f : Bool) (now : ℕ) (tok : Str) (s : Store)
      → (authenticate hs f now tok s).1
        ≡ answer now (lookup (hs.sha256_hex tok) s.mem.sessions) s.mem.users
  unfolding authenticate
  authenticate-answer f now tok s = ground arith

  pub answer-ok :
      (now : ℕ) (se : Session) (u : User) (us : List (Str × User))
      → lookup se.user us ≡ some u
      → u.disabled ≡ false
      → answer now (some se) us ≡ ok (seen_at now se, u)
  answer-ok now se u us e d = ground arith

  abbrev pub opened : ℕ → Str → Str → Str → Str → Session
  opened now user dev name kind = record {
    user = user;
    device_id = dev;
    device_name = name;
    device_kind = kind;
    created = now;
    last_seen = now;
  }

  pub new_session-lookup :
      (f : Bool) (now : ℕ) (tok user dev name kind : Str) (s : Store) (k : Str)
      → IsSound s.mem
      → let s' = (new_session hs f now tok user dev name kind s).0 in
        (lookup k s'.mem.sessions ≡ (
          if hs.sha256_hex tok == k
          then some (opened now user dev name kind)
          else unswept (is_device user dev) (lookup k s.mem.sessions)))
        × (s'.mem.users ≡ s.mem.users)
  unfolding new_session
  new_session-lookup f now tok user dev name kind s k v =
      let swept = sweep (is_device user dev) s.mem.sessions in
      let se = opened now user dev name kind in
      rw (save-mem f tok (with_sessions (insert (hs.sha256_hex tok) se swept) s)) (
        lookup-insert (hs.sha256_hex tok) k se swept
            ∙ rw
                (lookup-sweep (is_device user dev) k s.mem.sessions
                  v.sessions_sound.sessions_distinct)
                refl,
        refl,
      )

  -- In a well-formed store, a token that was just issued is accepted for its user and device, if
  -- the user is there and is not disabled. Another token, with another hash, is refused from then
  -- on if it was for the same device of the user, and is answered as before if it was not.
  pub authenticate-new_session :
      (f g : Bool) (now later : ℕ) (tok other user dev name kind : Str) (s : Store) (u : User)
      → IsSound s.mem
      → lookup user s.mem.users ≡ some u
      → u.disabled ≡ false
      → hs.sha256_hex other ≢ hs.sha256_hex tok
      → let s' = (new_session hs f now tok user dev name kind s).0 in
        ((authenticate hs g later tok s').1 ≡ ok (seen_at later (opened now user dev name kind), u))
        × ((authenticate hs g later other s').1
            ≡ answer later
                (unswept (is_device user dev) (lookup (hs.sha256_hex other) s.mem.sessions))
                s.mem.users)
  authenticate-new_session f g now later tok other user dev name kind s u v here on differ =
      let s' = (new_session hs f now tok user dev name kind s).0 in
      let (mine, same) = new_session-lookup f now tok user dev name kind s (hs.sha256_hex tok) v in
      let (theirs, _) = new_session-lookup f now tok user dev name kind s (hs.sha256_hex other) v in
      (
        authenticate-answer g later tok s'
            ∙ rw (mine, same, eq_refl (hs.sha256_hex tok))
                (answer-ok later (opened now user dev name kind) u s.mem.users here on),
        authenticate-answer g later other s'
            ∙ rw (theirs, same)
                (ground (arith, bytes_eq_iff (hs.sha256_hex tok) (hs.sha256_hex other))),
      )

  -- No session stands under the token's hash.
  abbrev pub Unknown : Str → Store → Type 0
  Unknown tok s = lookup (hs.sha256_hex tok) s.mem.sessions ≡ none

  pub authenticate-Unknown :
      (f : Bool) (now : ℕ) (tok : Str) (s : Store)
      → Unknown tok s
      → authenticate hs f now tok s ≡ (s, err bad_login)
  unfolding authenticate
  authenticate-Unknown f now tok s e = ground arith

  -- Logging out, removing the device and deleting the account make a token unknown, also if the
  -- change cannot be saved.
  pub logout-Unknown : (f : Bool) (tok : Str) (s : Store) → Unknown tok (logout hs f tok s).0
  unfolding logout
  logout-Unknown f tok s =
      rw
        (save-mem {0} {A = Unit {0}} f tt
          (with_sessions (delete (hs.sha256_hex tok) s.mem.sessions) s))
        (lookup-delete (hs.sha256_hex tok) (hs.sha256_hex tok) s.mem.sessions
          ∙ rw (eq_refl (hs.sha256_hex tok)) refl)

  pub revoke_device-Unknown :
      (f : Bool) (tok user dev : Str) (s : Store) (se : Session)
      → IsSound s.mem
      → lookup (hs.sha256_hex tok) s.mem.sessions ≡ some se
      → is_device user dev se ≡ true
      → Unknown tok (revoke_device f user dev s).0
  revoke_device-Unknown f tok user dev s se v e d = rw (revoke_device-sessions f user dev s) (
      lookup-sweep (is_device user dev) (hs.sha256_hex tok) s.mem.sessions
        v.sessions_sound.sessions_distinct
      ∙ rw (e, d) refl)

  pub delete_user-Unknown :
      (f : Bool) (tok : Str) (s : Store) (se : Session) (u : User)
      → IsSound s.mem
      → lookup (hs.sha256_hex tok) s.mem.sessions ≡ some se
      → lookup se.user s.mem.users ≡ some u
      → Unknown tok (delete_user f se.user s).0
  delete_user-Unknown f tok s se u v e e' = rw (delete_user-sessions f se.user s u e') (
      lookup-sweep (λ x. x.user == se.user) (hs.sha256_hex tok) s.mem.sessions
        v.sessions_sound.sessions_distinct
      ∙ rw (e, eq_refl se.user) refl)
