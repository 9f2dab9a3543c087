-- ===== src/Server/Store/Admin.antt =====
-- internal/server/store.go: devices, the administration of accounts, and invites.
use void_bridge.Base.{
  ℕ, ◌+◌, Bool, List, [], ◌∷◌, map, none, some, Str, ℤ, pos, negsuc, str_eq, ◌==◌, nat_beq, ltb,
  if◌then◌else◌, filterb,
}
use void_bridge.Base.Dict.{lookup, insert, delete, sweep}
use void_bridge.Base.Sort.{sort_by}
use void_bridge.Protocol.Message.{str_lt}
use void_bridge.Protocol.Code.{normalize_code, format_invite}
use void_bridge.Server.Store.{
  User, Invite, Session, Store, Result, err, not_found, save, with_users, with_invites,
  with_sessions, is_device, is_expired,
}

abbrev pub values {ℓ κ} : {K : Type ℓ} {V : Type κ} → List (K × V) → List V
values m = map (λ e. e.1) m

-- The sessions of a user, by the names of the devices.
unfoldable pub devices : Str → Store → List Session
devices user s =
    sort_by (λ a b. str_lt a.device_name b.device_name)
      (filterb (λ se. se.user == user) (values s.mem.sessions))

unfoldable pub revoke_device : Bool → Str → Str → Store → Store × Result (Unit {0})
revoke_device fails user device s = elim (filterb (is_device user device) (values s.mem.sessions)) [
  | [] ↦ (s, err not_found)
  | _ ∷ _ ↦ save fails tt (with_sessions (sweep (is_device user device) s.mem.sessions) s)
]

-- The accounts by name, without the hashes.
unfoldable pub users : Store → List User
users s =
    sort_by (λ a b. str_lt a.name b.name)
      (map (λ (u : User). record u { auth_hash = [] }) (values s.mem.users))

-- Both settings of an account.
unfoldable pub update_user : Bool → Str → (User → User) → Store → Store × Result (Unit {0})
update_user fails name f s = elim (lookup name s.mem.users) [
  | none ↦ (s, err not_found)
  | some u ↦ save fails tt (with_users (insert name (f u) s.mem.users) s)
]

unfoldable pub set_disabled : Bool → Str → Bool → Store → Store × Result (Unit {0})
set_disabled fails name b = update_user fails name (λ u. record u { disabled = b })

unfoldable pub set_admin : Bool → Str → Bool → Store → Store × Result (Unit {0})
set_admin fails name b = update_user fails name (λ u. record u { admin = b })

unfoldable pub delete_user : Bool → Str → Store → Store × Result (Unit {0})
delete_user fails name s = elim (lookup name s.mem.users) [
  | none ↦ (s, err not_found)
  | some _ ↦ save fails tt (
      with_sessions (sweep (λ se. se.user == name) s.mem.sessions)
        (with_users (delete name s.mem.users) s))
]

abbrev pub uses_of : ℤ → ℕ
uses_of (pos n) = if nat_beq n 0 then 1 else n
uses_of (negsuc n) = 1

abbrev pub expiry_of : ℕ → ℤ → ℕ
expiry_of now (pos n) = if nat_beq n 0 then 0 else now + n
expiry_of now (negsuc n) = 0

-- `CreateInvite`: `code` is the twelve letters drawn at random, `valid` the duration. The invite
-- is stored under the bare code and returned with dashes.
unfoldable pub create_invite : Bool → ℕ → Str → Str → ℤ → ℤ → Str → Store → Store × Result Invite
create_invite fails now code by uses valid note s =
    let inv : Invite = record {
      code = code;
      created_by = by;
      created = now;
      expires = expiry_of now valid;
      uses_left = uses_of uses;
      note = note;
    } in
    save fails (record inv { code = format_invite code })
      (with_invites (insert code inv s.mem.invites) s)

-- `Invites` drops the expired ones from memory, without a write to disk.
unfoldable pub invites : ℕ → Store → Store × List Invite
invites now s =
    let left = sweep (is_expired now) s.mem.invites in
    (
      with_invites left s,
      sort_by (λ (a b : Invite). ltb b.created a.created)
          (map (λ (i : Invite). record i { code = format_invite i.code }) (values left)),
    )

unfoldable pub revoke_invite : Bool → Str → Store → Store × Result (Unit {0})
revoke_invite fails code s = elim (lookup (normalize_code code) s.mem.invites) [
  | none ↦ (s, err not_found)
  | some _ ↦ save fails tt (with_invites (delete (normalize_code code) s.mem.invites) s)
]
