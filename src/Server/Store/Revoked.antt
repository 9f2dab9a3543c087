-- ===== src/Server/Store/Revoked.antt =====
-- A token that the store does not know stays unknown, until it is issued again.
use void_bridge.Base.{
  ℕ, ◌≡◌, ◌≢◌, Bool, true, List, [], ◌∷◌, Option, some, Str, ℤ, arith, Option-cases, inl, inr,
  bytes_eq_iff, str_eq, ◌==◌, ap,
}
use void_bridge.Base.Dict.{lookup, insert, sweep, lookup-insert, lookup-delete, lookup-sweep-none}
use void_bridge.Protocol.Crypto.{Hashes}
use void_bridge.Protocol.Code.{normalize_username, normalize_code}
use void_bridge.Server.Store.{
  User, Session, Invite, Store, err, save, new_session, authenticate, touch, touch_session, logout,
  enrol, is_device, with_users, new_user, is_first, close, bad_login,
}
use void_bridge.Server.Store.Admin.{
  delete_user, revoke_device, set_disabled, update_user, set_admin, create_invite, invites,
  revoke_invite,
}
use void_bridge.Server.Store.Keep.{spend-rest, register_cases}
use void_bridge.Server.Store.Sound.{IsSound}
use void_bridge.Server.Store.Access.{
  logout-Unknown, revoke_device-Unknown, delete_user-Unknown, Unknown, opened,
  revoke_device-sessions, authenticate-Unknown,
}
use void_bridge.Server.Store.Ops.{
  Op, registers, opens_session, authenticates, touches, logs_out, revokes_device, disables,
  makes_admin, deletes_user, creates_invite, lists_invites, revokes_invite, closes, step, run,
}

-- The operation does not issue the token (or another with its hash).
abbrev pub Spares : Hashes → Str → Op → Type 0
Spares hs tok (opens_session f now t user dev name kind) = hs.sha256_hex t ≢ hs.sha256_hex tok
Spares hs tok _ = Unit {0}

abbrev pub SparesAll : Hashes → Str → List Op → Type 0
SparesAll hs tok [] = Unit {0}
SparesAll hs tok (o ∷ os) = Spares hs tok o × SparesAll hs tok os

module _ (hs : Hashes) (tok : Str) where
  enrol-sessions :
      (f : Bool) (now : ℕ) (name key code : Str) (inv : Option Invite) (s : Store)
      → (enrol hs f now name key code inv s).0.mem.sessions ≡ s.mem.sessions
  unfolding enrol save
  enrol-sessions f now name key code inv s = ground (
    arith,
    spend-rest (normalize_code code) inv
        (with_users (insert name (new_user hs now name key (is_first s)) s.mem.users) s),
  )

  touch_session-Unknown :
      (f : Bool) (now : ℕ) (t : Str) (se : Session) (s : Store)
      → lookup (hs.sha256_hex t) s.mem.sessions ≡ some se
      → Unknown hs tok s
      → Unknown hs tok (touch_session hs f now t se s)
  unfolding touch_session save
  touch_session-Unknown f now t se s e h = ground (
    arith,
    lookup-insert (hs.sha256_hex t) (hs.sha256_hex tok) (record se { last_seen = now })
        s.mem.sessions,
    bytes_eq_iff (hs.sha256_hex t) (hs.sha256_hex tok),
  )

  new_session-Unknown :
      (f : Bool) (now : ℕ) (t user dev name kind : Str) (s : Store)
      → hs.sha256_hex t ≢ hs.sha256_hex tok
      → Unknown hs tok s
      → Unknown hs tok (new_session hs f now t user dev name kind s).0
  unfolding new_session save
  new_session-Unknown f now t user dev name kind s n h = ground (
    arith,
    lookup-sweep-none (is_device user dev) (hs.sha256_hex tok) s.mem.sessions,
    lookup-insert (hs.sha256_hex t) (hs.sha256_hex tok) (opened hs now user dev name kind)
        (sweep (is_device user dev) s.mem.sessions),
    bytes_eq_iff (hs.sha256_hex t) (hs.sha256_hex tok),
  )

  authenticate-keeps :
      (f : Bool) (now : ℕ) (t : Str) (s : Store)
      → Unknown hs tok s
      → Unknown hs tok (authenticate hs f now t s).0
  unfolding authenticate
  authenticate-keeps f now t s h = elim (Option-cases (lookup (hs.sha256_hex t) s.mem.sessions)) [
    | inl e ↦ ground arith
    | inr (se, e) ↦ ground (arith, touch_session-Unknown f now t se s e h)
  ]

  touch-keeps :
      (f : Bool) (now : ℕ) (t : Str) (s : Store)
      → Unknown hs tok s
      → Unknown hs tok (touch hs f now t s)
  unfolding touch
  touch-keeps f now t s h = elim (Option-cases (lookup (hs.sha256_hex t) s.mem.sessions)) [
    | inl e ↦ ground arith
    | inr (se, e) ↦ ground (arith, touch_session-Unknown f now t se s e h)
  ]

  logout-keeps :
      (f : Bool) (t : Str) (s : Store) → Unknown hs tok s → Unknown hs tok (logout hs f t s).0
  unfolding logout save
  logout-keeps f t s h =
      ground (arith, lookup-delete (hs.sha256_hex t) (hs.sha256_hex tok) s.mem.sessions)

  delete_user-keeps :
      (f : Bool) (name : Str) (s : Store)
      → Unknown hs tok s
      → Unknown hs tok (delete_user f name s).0
  unfolding delete_user save
  delete_user-keeps f name s h = ground (
    arith,
    lookup-sweep-none (λ (se : Session). se.user == name) (hs.sha256_hex tok) s.mem.sessions,
  )

  update_user-keeps :
      (f : Bool) (name : Str) (g : User → User) (s : Store)
      → Unknown hs tok s
      → Unknown hs tok (update_user f name g s).0
  unfolding update_user save
  update_user-keeps f name g s h = ground arith

  create_invite-keeps :
      (f : Bool) (now : ℕ) (code by : Str) (uses valid : ℤ) (note : Str) (s : Store)
      → Unknown hs tok s
      → Unknown hs tok (create_invite f now code by uses valid note s).0
  unfolding create_invite save
  create_invite-keeps f now code by uses valid note s h = ground arith

  revoke_invite-keeps :
      (f : Bool) (code : Str) (s : Store)
      → Unknown hs tok s
      → Unknown hs tok (revoke_invite f code s).0
  unfolding revoke_invite save
  revoke_invite-keeps f code s h = ground arith

  step-Unknown :
      (o : Op) (s : Store) → Spares hs tok o → Unknown hs tok s → Unknown hs tok (step hs o s)
  unfolding step
  step-Unknown (registers f now raw key code need) s n h =
      register_cases hs f now raw key code need s (λ r. Unknown hs tok r.0) (λ e. h)
        (λ inv good held. rw (enrol-sessions f now (normalize_username raw) key code inv s) h)
  step-Unknown (opens_session f now t user dev name kind) s n h =
      new_session-Unknown f now t user dev name kind s n h
  step-Unknown (authenticates f now t) s n h = authenticate-keeps f now t s h
  step-Unknown (touches f now t) s n h = touch-keeps f now t s h
  step-Unknown (logs_out f t) s n h = logout-keeps f t s h
  step-Unknown (revokes_device f user dev) s n h =
      rw (revoke_device-sessions f user dev s)
        (lookup-sweep-none (is_device user dev) (hs.sha256_hex tok) s.mem.sessions h)
  step-Unknown (disables f name b) s n h =
      unfold set_disabled in update_user-keeps f name (λ u. record u { disabled = b }) s h
  step-Unknown (makes_admin f name b) s n h =
      unfold set_admin in update_user-keeps f name (λ u. record u { admin = b }) s h
  step-Unknown (deletes_user f name) s n h = delete_user-keeps f name s h
  step-Unknown (creates_invite f now code by uses valid note) s n h =
      create_invite-keeps f now code by uses valid note s h
  step-Unknown (lists_invites now) s n h = unfold invites in h
  step-Unknown (revokes_invite f code) s n h = revoke_invite-keeps f code s h
  step-Unknown closes s n h = unfold close in h

  -- A token that the store does not know is refused after any sequence of operations that does
  -- not issue it, or another with its hash: a token once revoked never works again.
  pub run-Unknown :
      (os : List Op) (s : Store) (f : Bool) (now : ℕ)
      → SparesAll hs tok os
      → Unknown hs tok s
      → (authenticate hs f now tok (run hs os s)).1 ≡ err bad_login
  unfolding run
  run-Unknown [] s f now n h = ap (λ r. r.1) (authenticate-Unknown hs f now tok s h)
  run-Unknown (o ∷ os) s f now n h = run-Unknown os (step hs o s) f now n.1 (step-Unknown o s n.0 h)

  -- After a logout the token is refused, whatever happens at the store, until it is issued again.
  -- This holds also if the disk refused the write.
  pub logout-run :
      (g f : Bool) (now : ℕ) (os : List Op) (s : Store)
      → SparesAll hs tok os
      → (authenticate hs f now tok (run hs os (logout hs g tok s).0)).1 ≡ err bad_login
  logout-run g f now os s n =
      run-Unknown os (logout hs g tok s).0 f now n (logout-Unknown hs g tok s)

  -- In a well-formed store, after the device that a token was issued for is removed, the token
  -- is refused, whatever happens at the store, until it is issued again.
  pub revoke_device-run :
      (g f : Bool) (now : ℕ) (os : List Op) (s : Store) (user dev : Str) (se : Session)
      → IsSound s.mem
      → lookup (hs.sha256_hex tok) s.mem.sessions ≡ some se
      → is_device user dev se ≡ true
      → SparesAll hs tok os
      → (authenticate hs f now tok (run hs os (revoke_device g user dev s).0)).1 ≡ err bad_login
  revoke_device-run g f now os s user dev se v e d n =
      run-Unknown os (revoke_device g user dev s).0 f now n
        (revoke_device-Unknown hs g tok user dev s se v e d)

  -- In a well-formed store, after the account of a token's user is deleted, the token is refused,
  -- whatever happens at the store, until it is issued again: also if the name is registered anew.
  pub delete_user-run :
      (g f : Bool) (now : ℕ) (os : List Op) (s : Store) (se : Session) (u : User)
      → IsSound s.mem
      → lookup (hs.sha256_hex tok) s.mem.sessions ≡ some se
      → lookup se.user s.mem.users ≡ some u
      → SparesAll hs tok os
      → (authenticate hs f now tok (run hs os (delete_user g se.user s).0)).1 ≡ err bad_login
  delete_user-run g f now os s se u v e e' n =
      run-Unknown os (delete_user g se.user s).0 f now n
        (delete_user-Unknown hs g tok s se u v e e')
