-- ===== src/Server/Api.antt =====
-- internal/server/server.go: the HTTP API. A request is its route with what the server reads of
-- it; a handler is a function from the server to the server, the reply and what it does to the
-- connections of the hub. The body of a request is the value that Go's JSON decoder gives, none if
-- it gives an error.
pub mod Account
pub mod Console
pub mod Mux
pub mod Steps
pub mod Rights
pub mod Admins
pub mod Overlap
pub mod Guards
pub mod Signin
pub mod Claim
use void_bridge.Base.{
  ℕ, ◌*◌, ◌%◌, ◌^◌, Bool, true, false, not, ◌||◌, List, [], ◌∷◌, Option, none, some, Str, ℤ,
  signed64, bits64, str_eq, ◌==◌, if◌then◌else◌, codes, length, nat_beq, ltb,
}
use void_bridge.Protocol.Crypto.{Hashes}
use void_bridge.Server.Store.{
  User, Invite, Session, Store, Error, Result, ok, err, unsaved, authenticate,
}
use void_bridge.Server.Store
use void_bridge.Server.Limiter.{Limiter}
use void_bridge.Server.Hub.{Hub, Effect}

-- internal/protocol/netaddr.go: what Go's net package says of an address; `cgnat` is 100.64.0.0/10.
pub record Address : Type 0 where
  pub loopback : Bool
  pub private : Bool
  pub link_local : Bool
  pub cgnat : Bool

-- Go's library: `SplitHostPort`, `ParseIP` with the tests of an address, and base64.
pub record NetLibrary : Type 0 where
  pub split_host : Str → Option Str
  pub parse_ip : Str → Option Address
  pub decode64 : Str → Option Str

-- `PrivateIP`
unfoldable pub private_ip : Option Address → Bool
private_ip none = false
private_ip (some a) = a.loopback || (a.private || (a.link_local || a.cgnat))

abbrev pub is_loopback : Option Address → Bool
is_loopback none = false
is_loopback (some a) = a.loopback

pub record Server : Type 0 where
  pub store : Store
  pub hub : Hub
  pub limiter : Limiter
  pub signup : Str
  pub name : Str
  pub version : Str
  pub no_console : Bool

pub record Credentials : Type 0 where
  pub username : Str
  pub auth_key : Str
  pub invite : Str
  pub device_id : Str
  pub device_name : Str
  pub device_kind : Str

pub record LoginResult : Type 0 where
  pub token : Str
  pub username : Str
  pub admin : Bool

pub record Info : Type 0 where
  pub server : Str
  pub protocol : ℕ
  pub version : Str
  pub name : Str
  pub signup : Str
  pub has_users : Bool

pub record DeviceView : Type 0 where
  pub id : Str
  pub name : Str
  pub kind : Str
  pub online : Bool
  pub last_seen : ℕ
  pub this : Bool

pub record Me : Type 0 where
  pub username : Str
  pub admin : Bool
  pub devices : List DeviceView

pub record UserView : Type 0 where
  pub user : User
  pub devices : ℕ
  pub online : Bool

-- The body of a change to an account.
pub record Patch : Type 0 where
  pub disabled : Option Bool
  pub admin : Option Bool

pub record InviteRequest : Type 0 where
  pub uses : ℤ
  pub days : ℤ
  pub note : Str

-- What an error reply says.
pub data Fault : Type 0 where
  store_fault : Error → Fault
  unreadable_body bad_key bad_device too_many_attempts home_network_first : Fault
  admins_only console_only own_rights own_account encrypted_only no_page : Fault

pub data Reply : Type 0 where
  refuses : ℕ → Fault → Reply
  tells_info : Info → Reply
  signs_in : LoginResult → Reply
  done upgrades drops_upgrade shows_page : Reply
  shows_me : Me → Reply
  lists_users : List UserView → Reply
  lists_invites : List Invite → Reply
  makes_invite : Invite → Reply

pub record Outcome : Type 0 where
  pub server : Server
  pub reply : Reply
  pub effects : List Effect

-- What the outside answers during one request: the time, whether the disk refuses the writes of
-- the session's use, of the handler, and of its second change, the random token and invite code,
-- and for a WebSocket whether the upgrade fails and the new connection.
pub record Outside : Type 0 where
  pub now : ℕ
  pub touch_fails : Bool
  pub fails : Bool
  pub fails_again : Bool
  pub token : Str
  pub code : Str
  pub upgrade_fails : Bool
  pub handle : ℕ

pub record Request : Type 0 where
  pub remote : Str
  pub tls : Bool
  pub authorization : Str
  pub query_token : Str

abbrev pub answer : Reply → Server → Outcome
answer y s = record { server = s; reply = y; effects = [] }

abbrev pub refuse : ℕ → Fault → Server → Outcome
refuse code e s = answer (refuses code e) s

abbrev pub with_store : Store → Server → Server
with_store st s = record s { store = st }

abbrev pub with_limiter : Limiter → Server → Server
with_limiter l s = record s { limiter = l }

-- `strings.CutPrefix`
unfoldable pub cut_prefix : Str → Str → Option Str
cut_prefix [] s = some s
cut_prefix (x ∷ p) [] = none
cut_prefix (x ∷ p) (y ∷ s) = let rest = cut_prefix p s in if nat_beq x y then rest else none

unfoldable pub bearer : Request → Str
unfolding cut_prefix
bearer r = elim (cut_prefix (codes "Bearer ") r.authorization) [ none ↦ [] | some t ↦ t ]

-- The error that a call of the store gives, if it gives one.
abbrev pub fault_of {ℓ} : {A : Type ℓ} → Result A → Option Error
fault_of (ok a) = none
fault_of (err e) = some e
fault_of (unsaved a) = some Error.not_saved

module _ (net : NetLibrary) where
  unfoldable pub client_ip : Request → Str
  client_ip r = elim (net.split_host r.remote) [ none ↦ r.remote | some host ↦ host ]

  abbrev pub from_private : Request → Bool
  from_private r = private_ip (net.parse_ip (client_ip r))

  -- `localOnly`
  unfoldable pub local_only : (User → Server → Outcome) → Request → Server → Outcome
  local_only h r s =
      if s.no_console || not (is_loopback (net.parse_ip (client_ip r)))
      then refuse 403 console_only s
      else h
          (record {
            name = codes "(server console)";
            auth_hash = [];
            admin = true;
            disabled = false;
            created = 0;
          })
          s

module _ (hs : Hashes) where
  -- `auth`, for the token of the request.
  unfoldable pub auth : (Session → User → Server → Outcome) → Outside → Str → Server → Outcome
  auth h o token s =
      let (st, res) = authenticate hs o.touch_fails o.now token s.store in
      elim res [
        | ok (se, u) ↦ h se u (with_store st s)
        | err e ↦ refuse 401 (store_fault e) (with_store st s)
        | unsaved _ ↦ refuse 401 (store_fault Error.not_saved) (with_store st s)
      ]

  abbrev pub if_admin : (User → Server → Outcome) → Session → User → Server → Outcome
  if_admin h se u s = if not u.admin then refuse 403 admins_only s else h u s

  -- `admin`
  unfoldable pub admin : (User → Server → Outcome) → Outside → Str → Server → Outcome
  unfolding auth
  admin h = auth (if_admin h)
