-- ===== src/Server/Store.antt =====
-- internal/server/store.go: the accounts, invites and sessions of a server. Times are in
-- nanoseconds; 0 as the end of an invite is Go's zero time, no end.
pub mod Admin
pub mod Sound
pub mod Keep
pub mod Ops
pub mod Access
pub mod Enrol
pub mod Revoked
pub mod Invited
pub mod Boss
use void_bridge.Base.{
  ℕ, ◌+◌, ◌-◌, ◌*◌, ◌^◌, Bool, true, false, ◌&&◌, ◌||◌, not, List, [], ◌∷◌, ◌++◌, map, Option, none,
  some, Str, ℤ, pos, negsuc, str_eq, ◌==◌, leb, ltb, nat_beq, if◌then◌else◌, length, filterb, All,
  codes,
}
use void_bridge.Base.Dict.{lookup, insert, delete, sweep}
use void_bridge.Base.Sort.{sort_by}
use void_bridge.Protocol.Message.{str_lt}
use void_bridge.Protocol.Crypto.{Hashes}
use void_bridge.Protocol.Code.{normalize_username, normalize_code, format_invite}

pub record User : Type 0 where
  pub name : Str
  pub auth_hash : Str
  pub admin : Bool
  pub disabled : Bool
  pub created : ℕ

pub record Invite : Type 0 where
  pub code : Str
  pub created_by : Str
  pub created : ℕ
  pub expires : ℕ
  pub uses_left : ℕ
  pub note : Str

pub record Session : Type 0 where
  pub user : Str
  pub device_id : Str
  pub device_name : Str
  pub device_kind : Str
  pub created : ℕ
  pub last_seen : ℕ

-- Sessions stand under the hash of their token.
pub record StoreData : Type 0 where
  pub users : List (Str × User)
  pub invites : List (Str × Invite)
  pub sessions : List (Str × Session)

-- The data in memory, and what the file holds.
pub record Store : Type 0 where
  pub mem : StoreData
  pub disk : StoreData
  pub closed : Bool

pub data Error : Type 0 where
  bad_username bad_auth_key taken bad_invite bad_login disabled_account not_found not_saved : Error

-- `unsaved a` is a value together with the error of the write to disk.
pub data Result {ℓ} (A : Type ℓ) : Type ℓ where
  ok : A → Result A
  err : Error → Result A
  unsaved : A → Result A

abbrev pub hour : ℕ
hour = 3600 * 10 ^ 9

unfoldable pub empty_data : StoreData
empty_data = record { users = []; invites = []; sessions = [] }

-- `OpenStore`: the data of the file, if there is one.
unfoldable pub open_store : Option StoreData → Store
unfolding empty_data
open_store none = record { mem = empty_data; disk = empty_data; closed = false }
open_store (some d) = record { mem = d; disk = d; closed = false }

unfoldable pub close : Store → Store
close s = record s { closed = true }

-- `saveLocked`: the first argument says whether the disk refuses the write.
unfoldable pub save {ℓ} : {A : Type ℓ} → Bool → A → Store → Store × Result A
save fails a s =
    if s.closed
    then (s, ok a)
    else if fails
    then (s, unsaved a)
    else (record s { disk = s.mem }, ok a)

abbrev pub with_users : List (Str × User) → Store → Store
with_users us s = record s { mem = record (s.mem) { users = us } }

abbrev pub with_invites : List (Str × Invite) → Store → Store
with_invites is s = record s { mem = record (s.mem) { invites = is } }

abbrev pub with_sessions : List (Str × Session) → Store → Store
with_sessions ss s = record s { mem = record (s.mem) { sessions = ss } }

unfoldable pub has_users : Store → Bool
has_users s = ltb 0 (length s.mem.users)

-- `^[a-z0-9][a-z0-9._-]{2,31}$`
unfoldable pub is_name_start : ℕ → Bool
is_name_start c = (leb b'a' c && leb c b'z') || (leb b'0' c && leb c b'9')

unfoldable pub is_name_char : ℕ → Bool
unfolding is_name_start
is_name_char c = is_name_start c || (nat_beq c b'.' || (nat_beq c b'_' || nat_beq c b'-'))

unfoldable pub all_name_chars : Str → Bool
unfolding is_name_char
all_name_chars [] = true
all_name_chars (c ∷ s) = is_name_char c && all_name_chars s

unfoldable pub is_username : Str → Bool
unfolding all_name_chars is_name_start
is_username [] = false
is_username (c ∷ s) =
    is_name_start c && (all_name_chars s && (leb 2 (length s) && leb (length s) 31))

unfoldable pub is_expired : ℕ → Invite → Bool
is_expired now inv = not (nat_beq inv.expires 0) && ltb inv.expires now

-- Can the invite under this code be used?
unfoldable pub usable_invite : ℕ → Str → Store → Option Invite
unfolding is_expired
usable_invite now code s = elim (lookup (normalize_code code) s.mem.invites) [
  | none ↦ none
  | some inv ↦ if nat_beq inv.uses_left 0 || is_expired now inv then none else some inv
]

-- One use less; the last one deletes the invite, under the code that it names.
unfoldable pub spend : Str → Option Invite → Store → Store
spend key none s = s
spend key (some inv) s =
    let spent = insert key (record inv { uses_left = inv.uses_left - 1 }) s.mem.invites in
    with_invites (if leb inv.uses_left 1 then delete inv.code spent else spent) s

abbrev pub is_first : Store → Bool
is_first s = nat_beq (length s.mem.users) 0

abbrev pub is_device : Str → Str → Session → Bool
is_device user device se = (se.user == user) && (se.device_id == device)

abbrev pub seen_at : ℕ → Session → Session
seen_at now se = if ltb (se.last_seen + hour) now then record se { last_seen = now } else se

module _ (hs : Hashes) where
  abbrev pub new_user : ℕ → Str → Str → Bool → User
  new_user now name key first = record {
    name = name;
    auth_hash = hs.sha256_hex key;
    admin = first;
    disabled = false;
    created = now;
  }

  -- `Register` after the checks of the name and of the invite.
  unfoldable pub enrol : Bool → ℕ → Str → Str → Str → Option Invite → Store → Store × Result User
  enrol fails now name key code inv s = elim (lookup name s.mem.users) [
    | some _ ↦ (s, err taken)
    | none ↦
        let u = new_user now name key (is_first s) in
        save fails u (spend (normalize_code code) inv (with_users (insert name u s.mem.users) s))
  ]

  unfoldable pub register : Bool → ℕ → Str → Str → Str → Bool → Store → Store × Result User
  register fails now raw key code need_invite s =
      let name = normalize_username raw in
      if not (is_username name)
      then (s, err bad_username)
      else if not (nat_beq (length key) 32)
      then (s, err bad_auth_key)
      else if need_invite && not (is_first s)
      then elim (usable_invite now code s) [
        | none ↦ (s, err bad_invite)
        | some inv ↦ enrol fails now name key code (some inv) s
      ]
      else enrol fails now name key code none s

  -- What a login is compared with if there is no such user: 64 zeros.
  abbrev pub no_hash : Str
  no_hash = codes "0000000000000000000000000000000000000000000000000000000000000000"

  unfoldable pub check_login : Str → Str → Store → Result User
  check_login raw key s = elim (lookup (normalize_username raw) s.mem.users) [
    | none ↦ err bad_login
    | some u ↦
        if not (hs.sha256_hex key == u.auth_hash)
        then err bad_login
        else if u.disabled
        then err disabled_account
        else ok u
  ]

  -- `NewSession`, with the token drawn at random.
  unfoldable pub new_session : Bool → ℕ → Str → Str → Str → Str → Str → Store → Store × Result Str
  new_session fails now token user device name kind s = save fails token (
      with_sessions
        (insert (hs.sha256_hex token)
          (record {
            user = user;
            device_id = device;
            device_name = name;
            device_kind = kind;
            created = now;
            last_seen = now;
          })
          (sweep (is_device user device) s.mem.sessions))
        s)

  unfoldable pub touch_session : Bool → ℕ → Str → Session → Store → Store
  touch_session fails now token se s =
      (save {0} fails tt (
        with_sessions (insert (hs.sha256_hex token) (record se { last_seen = now }) s.mem.sessions)
          s)).0

  -- A session that was not used for an hour is noted as used now; an error of that write is
  -- dropped.
  unfoldable pub authenticate : Bool → ℕ → Str → Store → Store × Result (Session × User)
  authenticate fails now token s = elim (lookup (hs.sha256_hex token) s.mem.sessions) [
    | none ↦ (s, err bad_login)
    | some se ↦ elim (lookup se.user s.mem.users) [
      | none ↦ (s, err bad_login)
      | some u ↦ if u.disabled then (s, err disabled_account) else (
        if ltb (se.last_seen + hour) now then touch_session fails now token se s else s,
        ok (seen_at now se, u),
      )
    ]
  ]

  unfoldable pub touch : Bool → ℕ → Str → Store → Store
  touch fails now token s = elim (lookup (hs.sha256_hex token) s.mem.sessions) [
    | none ↦ s
    | some se ↦ touch_session fails now token se s
  ]

  unfoldable pub logout : Bool → Str → Store → Store × Result (Unit {0})
  logout fails token s =
      save fails tt (with_sessions (delete (hs.sha256_hex token) s.mem.sessions) s)
