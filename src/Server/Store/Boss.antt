-- ===== src/Server/Store/Boss.antt =====
-- Which operations of the store leave an enabled admin what they are.
use void_bridge.Base.{
  ℕ, ◌≡◌, refl, sym, Bool, true, false, List, [], ◌∷◌, Option, some, Str, ℤ, arith, inl, inr,
  Option-cases, Bool-cases, str_eq, ◌==◌, All, bytes_eq_iff,
}
use void_bridge.Base.Dict.{lookup, insert, lookup-insert, lookup-delete}
use void_bridge.Protocol.Crypto.{Hashes}
use void_bridge.Protocol.Code.{normalize_username, normalize_code}
use void_bridge.Server.Store.{
  User, Invite, Store, save, close, enrol, new_session, authenticate, touch, touch_session, logout,
  with_users, new_user, is_first,
}
use void_bridge.Server.Store.Admin.{
  revoke_device, set_disabled, set_admin, update_user, delete_user, create_invite, invites,
  revoke_invite,
}
use void_bridge.Server.Store.Keep.{save-mem, register_cases, spend-rest}
use void_bridge.Server.Store.Ops.{
  Op, registers, opens_session, authenticates, touches, logs_out, revokes_device, disables,
  makes_admin, deletes_user, creates_invite, lists_invites, revokes_invite, closes, step, run,
}

-- An account that is an enabled admin.
pub record IsBoss (name : Str) (users : List (Str × User)) : Type 0 where
  pub account : User
  pub known : lookup name users ≡ some account
  pub is_admin : account.admin ≡ true
  pub is_enabled : account.disabled ≡ false

-- Does the operation disable or delete the account, or take its admin rights?
abbrev pub harms : Str → Op → Bool
harms name (disables f n true) = n == name
harms name (makes_admin f n false) = n == name
harms name (deletes_user f n) = n == name
harms name _ = false

update_user-IsBoss :
    (f : Bool) (name me : Str) (g : User → User) (s : Store)
    → ((u : User)
        → name ≡ me
        → u.admin ≡ true
        → u.disabled ≡ false
        → ((g u).admin ≡ true) × ((g u).disabled ≡ false))
    → IsBoss me s.mem.users
    → IsBoss me (update_user f name g s).0.mem.users
unfolding update_user
update_user-IsBoss f name me g s keeps b = elim (Option-cases (lookup name s.mem.users)) [
  | inl e ↦ rw (e, update_user) b
  | inr (u, e) ↦
      rw
        (
          e,
          update_user,
          save-mem {0} {A = Unit {0}} f tt (with_users (insert name (g u) s.mem.users) s),
        )
        (elim (Bool-cases (name == me)) [
          | inl same ↦
              let p : name ≡ me = (bytes_eq_iff name me).0 same in
              let its : b.account ≡ u = ground (arith, b.known, e, p) in
              let k = keeps u p (rw (sym its) b.is_admin) (rw (sym its) b.is_enabled) in
              record {
                account = g u;
                known = ground (arith, lookup-insert name me (g u) s.mem.users, same);
                is_admin = k.0;
                is_enabled = k.1;
              }
          | inr other ↦ record {
            account = b.account;
            known = ground (arith, lookup-insert name me (g u) s.mem.users, other, b.known);
            is_admin = b.is_admin;
            is_enabled = b.is_enabled;
          }
        ])
]

delete_user-IsBoss :
    (f : Bool) (name me : Str) (s : Store)
    → (name == me) ≡ false
    → IsBoss me s.mem.users
    → IsBoss me (delete_user f name s).0.mem.users
unfolding delete_user save
delete_user-IsBoss f name me s other b = record {
  account = b.account;
  known = ground (arith, lookup-delete name me s.mem.users, other, b.known);
  is_admin = b.is_admin;
  is_enabled = b.is_enabled;
}

same-IsBoss : (me : Str) (us vs : List (Str × User)) → vs ≡ us → IsBoss me us → IsBoss me vs
same-IsBoss me us vs e b = rw e b

revoke_device-users :
    (f : Bool) (user dev : Str) (s : Store) → (revoke_device f user dev s).0.mem.users ≡ s.mem.users
unfolding revoke_device save
revoke_device-users f user dev s = ground arith

revoke_invite-users :
    (f : Bool) (code : Str) (s : Store) → (revoke_invite f code s).0.mem.users ≡ s.mem.users
unfolding revoke_invite save
revoke_invite-users f code s = ground arith

create_invite-users :
    (f : Bool) (now : ℕ) (code by : Str) (uses valid : ℤ) (note : Str) (s : Store)
    → (create_invite f now code by uses valid note s).0.mem.users ≡ s.mem.users
unfolding create_invite save
create_invite-users f now code by uses valid note s = ground arith

module _ (hs : Hashes) where
  enrol-IsBoss :
      (f : Bool) (now : ℕ) (name key code me : Str) (inv : Option Invite) (s : Store)
      → IsBoss me s.mem.users
      → IsBoss me (enrol hs f now name key code inv s).0.mem.users
  unfolding enrol save
  enrol-IsBoss f now name key code me inv s b =
      let u = new_user hs now name key (is_first s) in
      record {
        account = b.account;
        known = ground (
          arith,
          spend-rest (normalize_code code) inv (with_users (insert name u s.mem.users) s),
          lookup-insert name me u s.mem.users,
          bytes_eq_iff name me,
          b.known,
        );
        is_admin = b.is_admin;
        is_enabled = b.is_enabled;
      }

  pub authenticate-rest :
      (f : Bool) (now : ℕ) (tok : Str) (s : Store)
      → ((authenticate hs f now tok s).0.mem.users ≡ s.mem.users)
        × ((authenticate hs f now tok s).0.mem.invites ≡ s.mem.invites)
  unfolding authenticate touch_session save
  authenticate-rest f now tok s = ground arith

  touch-users :
      (f : Bool) (now : ℕ) (tok : Str) (s : Store) → (touch hs f now tok s).mem.users ≡ s.mem.users
  unfolding touch touch_session save
  touch-users f now tok s = ground arith

  logout-users : (f : Bool) (tok : Str) (s : Store) → (logout hs f tok s).0.mem.users ≡ s.mem.users
  unfolding logout save
  logout-users f tok s = ground arith

  new_session-users :
      (f : Bool) (now : ℕ) (tok user dev name kind : Str) (s : Store)
      → (new_session hs f now tok user dev name kind s).0.mem.users ≡ s.mem.users
  unfolding new_session save
  new_session-users f now tok user dev name kind s = ground arith

  step-IsBoss :
      (me : Str) (o : Op) (s : Store)
      → harms me o ≡ false
      → IsBoss me s.mem.users
      → IsBoss me (step hs o s).mem.users
  unfolding step
  step-IsBoss me (registers f now raw key code need) s h b =
      register_cases hs f now raw key code need s (λ x. IsBoss me x.0.mem.users) (λ e. b)
        (λ inv good held. enrol-IsBoss f now (normalize_username raw) key code me inv s b)
  step-IsBoss me (opens_session f now tok user dev name kind) s h b =
      same-IsBoss me _ _ (new_session-users f now tok user dev name kind s) b
  step-IsBoss me (authenticates f now tok) s h b =
      same-IsBoss me _ _ (authenticate-rest f now tok s).0 b
  step-IsBoss me (touches f now tok) s h b = same-IsBoss me _ _ (touch-users f now tok s) b
  step-IsBoss me (logs_out f tok) s h b = same-IsBoss me _ _ (logout-users f tok s) b
  step-IsBoss me (revokes_device f user dev) s h b =
      same-IsBoss me _ _ (revoke_device-users f user dev s) b
  step-IsBoss me (disables f name true) s h b =
      unfold set_disabled in
      update_user-IsBoss f name me _ s
        (λ u same a e. absurd (ground (arith, bytes_eq_iff name me, same, h))) b
  step-IsBoss me (disables f name false) s h b =
      unfold set_disabled in update_user-IsBoss f name me _ s (λ u same a e. (a, refl)) b
  step-IsBoss me (makes_admin f name true) s h b =
      unfold set_admin in update_user-IsBoss f name me _ s (λ u same a e. (refl, e)) b
  step-IsBoss me (makes_admin f name false) s h b =
      unfold set_admin in
      update_user-IsBoss f name me _ s
        (λ u same a e. absurd (ground (arith, bytes_eq_iff name me, same, h))) b
  step-IsBoss me (deletes_user f name) s h b = delete_user-IsBoss f name me s h b
  step-IsBoss me (creates_invite f now code by uses valid note) s h b =
      same-IsBoss me _ _ (create_invite-users f now code by uses valid note s) b
  step-IsBoss me (lists_invites now) s h b = unfold invites in b
  step-IsBoss me (revokes_invite f code) s h b = same-IsBoss me _ _ (revoke_invite-users f code s) b
  step-IsBoss me closes s h b = unfold close in b

  pub run-IsBoss :
      (me : Str) (os : List Op) (s : Store)
      → All (λ o. harms me o ≡ false) os
      → IsBoss me s.mem.users
      → IsBoss me (run hs os s).mem.users
  unfolding run
  run-IsBoss me [] s h b = b
  run-IsBoss me (o ∷ os) s h b = run-IsBoss me os (step hs o s) h.1 (step-IsBoss me o s h.0 b)
