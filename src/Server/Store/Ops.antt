-- ===== src/Server/Store/Ops.antt =====
-- The store under any sequence of its operations: well-formed data, and what reaches the disk.
use void_bridge.Base.{
  ℕ, ◌<◌, ◌≡◌, refl, Bool, List, [], ◌∷◌, none, Str, ℤ, arith, inl, inr, Option-cases, str_eq,
  filterb, pos, negsuc, ◌==◌, ◌∙◌,
}
use void_bridge.Base.Dict.{lookup, sweep}
use void_bridge.Protocol.Crypto.{Hashes}
use void_bridge.Protocol.Code.{normalize_code}
use void_bridge.Server.Store.{
  User, Session, StoreData, Store, Result, err, save, close, register, new_session, authenticate,
  touch, logout, is_expired, is_device, not_found, open_store, empty_data,
}
use void_bridge.Server.Store.Admin.{
  revoke_device, set_disabled, set_admin, update_user, delete_user, create_invite, invites,
  revoke_invite, uses_of, values,
}
use void_bridge.Server.Store.Sound.{
  IsSound, insert-UsersSound, delete-UsersSound, insert-InvitesSound, delete-InvitesSound,
  sweep-InvitesSound, sweep-SessionsSound,
}
use void_bridge.Server.Store.Keep.{
  save-IsSound, register-IsSound, authenticate-IsSound, touch-IsSound, new_session-IsSound,
  logout-IsSound,
}

-- A call of the store with its arguments; the first Boolean says whether the disk refuses a write.
pub data Op : Type 0 where
  registers : Bool → ℕ → Str → Str → Str → Bool → Op
  opens_session : Bool → ℕ → Str → Str → Str → Str → Str → Op
  authenticates : Bool → ℕ → Str → Op
  touches : Bool → ℕ → Str → Op
  logs_out : Bool → Str → Op
  revokes_device : Bool → Str → Str → Op
  disables : Bool → Str → Bool → Op
  makes_admin : Bool → Str → Bool → Op
  deletes_user : Bool → Str → Op
  creates_invite : Bool → ℕ → Str → Str → ℤ → ℤ → Str → Op
  lists_invites : ℕ → Op
  revokes_invite : Bool → Str → Op
  closes : Op

module _ (hs : Hashes) where
  unfoldable pub step : Op → Store → Store
  step (registers f now raw key code need) s = (register hs f now raw key code need s).0
  step (opens_session f now tok user dev name kind) s =
      (new_session hs f now tok user dev name kind s).0
  step (authenticates f now tok) s = (authenticate hs f now tok s).0
  step (touches f now tok) s = touch hs f now tok s
  step (logs_out f tok) s = (logout hs f tok s).0
  step (revokes_device f user dev) s = (revoke_device f user dev s).0
  step (disables f name b) s = (set_disabled f name b s).0
  step (makes_admin f name b) s = (set_admin f name b s).0
  step (deletes_user f name) s = (delete_user f name s).0
  step (creates_invite f now code by uses valid note) s =
      (create_invite f now code by uses valid note s).0
  step (lists_invites now) s = (invites now s).0
  step (revokes_invite f code) s = (revoke_invite f code s).0
  step closes s = close s

  unfoldable pub run : List Op → Store → Store
  unfolding step
  run [] s = s
  run (o ∷ os) s = run os (step o s)

update_user-IsSound :
    (f : Bool) (name : Str) (g : User → User) (s : Store)
    → ((u : User) → (g u).name ≡ u.name)
    → IsSound s.mem
    → IsSound (update_user f name g s).0.mem
unfolding update_user
update_user-IsSound f name g s same v = elim (Option-cases (lookup name s.mem.users)) [
  | inl e ↦ rw (e, update_user) v
  | inr (u, e) ↦
      let (named, good) = v.users_sound.named name u e in
      rw (e, update_user)
        (save-IsSound {0} {A = Unit {0}} f tt _ (record {
          users_sound =
              insert-UsersSound name (g u) s.mem.users v.users_sound (same u ∙ named) good;
          invites_sound = v.invites_sound;
          sessions_sound = v.sessions_sound;
        }))
]

revoke_device-IsSound :
    (f : Bool) (user dev : Str) (s : Store)
    → IsSound s.mem
    → IsSound (revoke_device f user dev s).0.mem
unfolding revoke_device
revoke_device-IsSound f user dev s v = go (filterb (is_device user dev) (values s.mem.sessions))
  where
    swept : StoreData
    swept = record (s.mem) { sessions = sweep (is_device user dev) s.mem.sessions }

    go :
        (l : List Session)
        → IsSound
            (elim l as (λ _. Store × Result (Unit {0})) [
              | [] ↦ (s, err not_found)
              | _ ∷ _ ↦ save f tt (record s { mem = swept })
            ]).0.mem
    go [] = v
    go (x ∷ l) =
        save-IsSound {0} {A = Unit {0}} f tt (record s { mem = swept })
          (record {
            users_sound = v.users_sound;
            invites_sound = v.invites_sound;
            sessions_sound =
                sweep-SessionsSound (is_device user dev) s.mem.sessions v.sessions_sound;
          })

delete_user-IsSound :
    (f : Bool) (name : Str) (s : Store) → IsSound s.mem → IsSound (delete_user f name s).0.mem
unfolding delete_user
delete_user-IsSound f name s v = elim (Option-cases (lookup name s.mem.users)) [
  | inl e ↦ rw (e, delete_user) v
  | inr (u, e) ↦
      rw (e, delete_user)
        (save-IsSound {0} {A = Unit {0}} f tt _ (record {
          users_sound = delete-UsersSound name s.mem.users v.users_sound;
          invites_sound = v.invites_sound;
          sessions_sound =
              sweep-SessionsSound (λ se. se.user == name) s.mem.sessions v.sessions_sound;
        }))
]

pub uses_of_pos : (n : ℤ) → 0 < uses_of n
uses_of_pos (pos n) = ground arith
uses_of_pos (negsuc n) = omega arith

create_invite-IsSound :
    (f : Bool) (now : ℕ) (code by : Str) (uses valid : ℤ) (note : Str) (s : Store)
    → IsSound s.mem
    → IsSound (create_invite f now code by uses valid note s).0.mem
unfolding create_invite
create_invite-IsSound f now code by uses valid note s v = save-IsSound f _ _ (record {
  users_sound = v.users_sound;
  invites_sound = insert-InvitesSound code _ s.mem.invites v.invites_sound refl (uses_of_pos uses);
  sessions_sound = v.sessions_sound;
})

invites-IsSound : (now : ℕ) (s : Store) → IsSound s.mem → IsSound (invites now s).0.mem
unfolding invites
invites-IsSound now s v = record {
  users_sound = v.users_sound;
  invites_sound = sweep-InvitesSound (is_expired now) s.mem.invites v.invites_sound;
  sessions_sound = v.sessions_sound;
}

revoke_invite-IsSound :
    (f : Bool) (code : Str) (s : Store) → IsSound s.mem → IsSound (revoke_invite f code s).0.mem
unfolding revoke_invite
revoke_invite-IsSound f code s v =
    elim (Option-cases (lookup (normalize_code code) s.mem.invites)) [
      | inl e ↦ rw (e, revoke_invite) v
      | inr (i, e) ↦
          rw (e, revoke_invite)
            (save-IsSound {0} {A = Unit {0}} f tt _ (record {
              users_sound = v.users_sound;
              invites_sound =
                  delete-InvitesSound (normalize_code code) s.mem.invites v.invites_sound;
              sessions_sound = v.sessions_sound;
            }))
    ]

-- Every operation, also one that fails or is not saved, keeps the data well formed: users stand
-- under their names and these have the right form, invites stand under their codes and have
-- uses left, and a device of a user has one session at most.
pub step-IsSound : (hs : Hashes) (o : Op) (s : Store) → IsSound s.mem → IsSound (step hs o s).mem
unfolding step
step-IsSound hs (registers f now raw key code need) s v =
    register-IsSound hs f now raw key code need s v
step-IsSound hs (opens_session f now tok user dev name kind) s v =
    new_session-IsSound hs f now tok user dev name kind s v
step-IsSound hs (authenticates f now tok) s v = authenticate-IsSound hs f now tok s v
step-IsSound hs (touches f now tok) s v = touch-IsSound hs f now tok s v
step-IsSound hs (logs_out f tok) s v = logout-IsSound hs f tok s v
step-IsSound hs (revokes_device f user dev) s v = revoke_device-IsSound f user dev s v
step-IsSound hs (disables f name b) s v =
    unfold set_disabled in
    update_user-IsSound f name (λ u. record u { disabled = b }) s (λ u. refl) v
step-IsSound hs (makes_admin f name b) s v =
    unfold set_admin in update_user-IsSound f name (λ u. record u { admin = b }) s (λ u. refl) v
step-IsSound hs (deletes_user f name) s v = delete_user-IsSound f name s v
step-IsSound hs (creates_invite f now code by uses valid note) s v =
    create_invite-IsSound f now code by uses valid note s v
step-IsSound hs (lists_invites now) s v = invites-IsSound now s v
step-IsSound hs (revokes_invite f code) s v = revoke_invite-IsSound f code s v
step-IsSound hs closes s v = unfold close in v

pub run-IsSound :
    (hs : Hashes) (os : List Op) (s : Store) → IsSound s.mem → IsSound (run hs os s).mem
unfolding run
run-IsSound hs [] s v = v
run-IsSound hs (o ∷ os) s v = run-IsSound hs os (step hs o s) (step-IsSound hs o s v)

-- A server that starts without a file has well-formed data after any sequence of operations, also
-- if some of them fail or are not saved.
pub open_store-run-IsSound :
    (hs : Hashes) (os : List Op) → IsSound (run hs os (open_store none)).mem
unfolding open_store lookup empty_data
open_store-run-IsSound hs os = run-IsSound hs os (open_store none) (record {
  users_sound = record { users_distinct = tt; named = λ k u e. ground arith };
  invites_sound = record { invites_distinct = tt; coded = λ k i e. ground arith };
  sessions_sound = record { sessions_distinct = tt; single = λ j k a b e. ground arith };
})
