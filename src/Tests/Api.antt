-- ===== src/Tests/Api.antt =====
-- Requests to a server of one admin with a phone, and to a new server.
use void_bridge.Base.{
  ℕ, ◌≡◌, bytes_eq_iff, refl, true, false, [], ◌∷◌, Option, none, some, Str, arith, codes, bytes_eq,
  str_eq, if◌then◌else◌, nat_beq,
}
use void_bridge.Base.Dict.{lookup, insert, delete, sweep}
use void_bridge.Protocol.Code.{normalize_code, normalize_username}
use void_bridge.Server.Store.{
  User, Session, open_store, empty_data, register, enrol, is_username, save, spend, new_session,
  has_users, authenticate,
}
use void_bridge.Server.Store.Sound.{IsSound}
use void_bridge.Server.Store.Ops
use void_bridge.Server.Store.Access
use void_bridge.Server.Hub.{empty_hub, Conn}
use void_bridge.Server.Hub.Kick.{cancels_of, sends_of, conns_of, live_conns}
use void_bridge.Server.Limiter.{blocked}
use void_bridge.Server.Api.{
  NetLibrary, Address, Server, Credentials, LoginResult, Outside, Request, done, cut_prefix, bearer,
  with_store, private_ip, client_ip, auth, admin, local_only,
}
use void_bridge.Server.Api.Account
use void_bridge.Server.Api.Console.{patch_user}
use void_bridge.Server.Api.Overlap
use void_bridge.Server.Api.Overlap.{disable}
use void_bridge.Server.Api.Mux.{Route, dispatch, serve}
use void_bridge.Server.Api.Guards
use void_bridge.Server.Api.Admins
use void_bridge.Server.Api.Admins.{Exchange, HasAdmin, serves}
use void_bridge.Server.Api.Signin
use void_bridge.Server.Api.Claim
use void_bridge.Tests.Accounts
use void_bridge.Tests.Cipher.{plain_hashes}

program : Unit {0}
unfolding normalize_code normalize_username lookup insert delete sweep bytes_eq register enrol
    is_username save spend new_session has_users authenticate blocked cut_prefix bearer private_ip
    client_ip auth admin local_only dispatch serve open_store empty_data Account.register
    Account.key_of Account.register_from Account.registered Account.issue
program = tt

-- Addresses "h" are at home, all others in the internet; base64 is the text itself.
abbrev home : Address
home = record { loopback = false; private = true; link_local = false; cgnat = false }

abbrev away : Address
away = record { loopback = false; private = false; link_local = false; cgnat = false }

parse : Str → Option Address
parse [] = none
parse (c ∷ s) = some (if nat_beq c b'h' then home else away)

abbrev net : NetLibrary
net = record { split_host = λ s. some s; parse_ip = parse; decode64 = λ s. some s }

abbrev running : Server
running = record {
  store = Accounts.server;
  hub = empty_hub;
  limiter = [];
  signup = codes "invite";
  name = codes "pi";
  version = codes "1.0";
  no_console = false;
}

abbrev fresh : Server
fresh = record running { store = open_store none }

abbrev outside : Outside
outside = record {
  now = 10;
  touch_fails = false;
  fails = false;
  fails_again = false;
  token = codes "t2";
  code = codes "MMMMMMMMMMMM";
  upgrade_fails = false;
  handle = 1;
}

abbrev request : Request
request = record {
  remote = codes "home";
  tls = false;
  authorization = codes "Bearer tok";
  query_token = [];
}

abbrev far_request : Request
far_request = record request { remote = codes "web"; tls = true; authorization = [] }

abbrev credentials : Credentials
credentials = record {
  username = codes "Root";
  auth_key = Accounts.long_key;
  invite = [];
  device_id = codes "pc";
  device_name = codes "PC";
  device_kind = codes "windows";
}

serve-IsTurnedAway_example :
    Guards.IsTurnedAway running
      (serve plain_hashes net (Route.admin_delete (codes "root")) far_request outside running)
unfolding program
serve-IsTurnedAway_example =
    Guards.serve-IsTurnedAway plain_hashes net (Route.admin_delete (codes "root")) far_request
      outside running refl (λ t. ground (arith, t.has_session))

-- The admin's phone and PC, and the phone of another.
abbrev conn : ℕ → Str → Str → Conn
conn n user device = record {
  handle = n;
  user = user;
  device_id = device;
  device_name = device;
  device_kind = [];
  token = [];
}

abbrev busy : Server
busy = record running {
  hub = record {
    accounts =
        (codes "carl", record { conns = conn 3 (codes "carl") (codes "ph") ∷ []; current = none })
        ∷ (
          codes "root",
          record {
            conns = conn 2 (codes "root") (codes "pc") ∷ conn 1 (codes "root") (codes "ph") ∷ [];
            current = none;
          },
        )
        ∷ [];
    inflight = [];
  };
}

its_conns :
    (conns_of 1 (codes "ph") (live_conns (codes "root") busy.hub) ≡ 1)
    × (conns_of 2 (codes "ph") (live_conns (codes "root") busy.hub) ≡ 0)
    × (conns_of 3 (codes "ph") (live_conns (codes "root") busy.hub) ≡ 0)
unfolding conns_of lookup bytes_eq
its_conns = (refl, refl, refl)

serve-delete_device_example :
    let x = serve plain_hashes net (Route.delete_device (codes "ph")) request outside busy in
    Access.Unknown plain_hashes (codes "tok") x.server.store
    × (x.reply ≡ done)
    × (cancels_of 1 x.effects ≡ conns_of 1 (codes "ph") (live_conns (codes "root") busy.hub))
    × (sends_of x.effects ≡ 0)
unfolding program parse
serve-delete_device_example =
    Guards.serve-delete_device plain_hashes net request outside busy (codes "ph") (codes "tok")
      Accounts.on_phone Accounts.on_phone Accounts.admin 1 Accounts.server-IsSound refl refl refl
      refl refl refl refl

-- Two admins and nobody else.
abbrev ann : User
ann = record Accounts.admin { name = codes "ann" }

abbrev bob : User
bob = record Accounts.admin { name = codes "bob" }

abbrev of_user : Str → Session
of_user name = record Accounts.on_phone { user = name }

abbrev shared : Server
shared = record running {
  store = record Accounts.server {
    mem = record empty_data {
      users = (codes "ann", ann) ∷ (codes "bob", bob) ∷ [];
      sessions = (codes "t1", of_user (codes "ann")) ∷ (codes "t2", of_user (codes "bob")) ∷ [];
    };
  };
}

shared-IsOnly : Overlap.IsOnly ann bob shared.store.mem.users
unfolding program
shared-IsOnly = record {
  differ = λ e. absurd (ground arith);
  known_a = refl;
  known_b = refl;
  enabled_a = refl;
  enabled_b = refl;
  admin_a = refl;
  admin_b = refl;
  only = λ n h. ground (arith, h.known, bytes_eq_iff (codes "ann") n, bytes_eq_iff (codes "bob") n);
}

patch_user_leaves_none_example :
    let (st, as_a) = authenticate plain_hashes false 10 (codes "t1") shared.store in
    let (st', as_b) = authenticate plain_hashes false 10 (codes "t2") st in
    let first = patch_user outside (codes "bob") (some disable) ann (with_store st' shared) in
    let second = patch_user outside (codes "ann") (some disable) bob first.server in
    (Overlap.sender as_a ≡ some ann)
    × (Overlap.sender as_b ≡ some bob)
    × (first.reply ≡ done)
    × (second.reply ≡ done)
    × (¬ HasAdmin second.server.store.mem.users)
unfolding program
patch_user_leaves_none_example =
    Overlap.patch_user_leaves_none plain_hashes (codes "t1") (codes "t2") (of_user (codes "ann"))
      (of_user (codes "bob")) ann bob outside outside shared refl refl refl refl shared-IsOnly refl
      refl

abbrev patching : Exchange
patching = record {
  route = Route.admin_patch (codes "root") (some (record { disabled = some true; admin = none }));
  request = request;
  outside = outside;
}

root-HasAdmin : HasAdmin Accounts.data_now.users
unfolding program
root-HasAdmin = record {
  name = codes "root";
  boss = record { account = Accounts.admin; known = refl; is_admin = refl; is_enabled = refl };
}

serves-HasAdmin_example : HasAdmin (serves plain_hashes net (patching ∷ []) running).store.mem.users
serves-HasAdmin_example =
    Admins.serves-HasAdmin plain_hashes net (patching ∷ []) running (refl, tt)
      Accounts.server-IsSound root-HasAdmin

serve-IsAccepted_example :
    let t : LoginResult = record { token = codes "t2"; username = codes "root"; admin = true } in
    Signin.IsAccepted plain_hashes false 99 t
      (serve plain_hashes net
        (Route.post_register (some credentials))
        request
        outside
        fresh).server.store
unfolding program parse
serve-IsAccepted_example =
    let v : IsSound fresh.store.mem =
      unfold Ops.run in Ops.open_store-run-IsSound plain_hashes [] in
    Signin.serve-IsAccepted plain_hashes false 99 net (Route.post_register (some credentials))
      request outside fresh (record { token = codes "t2"; username = codes "root"; admin = true }) v
      refl refl

abbrev claiming : Exchange
claiming = record {
  route = Route.post_register (some credentials);
  request = far_request;
  outside = outside;
}

serves-IsUnclaimed_example : Claim.IsUnclaimed (serves plain_hashes net (claiming ∷ []) fresh)
unfolding program parse
serves-IsUnclaimed_example =
    Claim.serves-IsUnclaimed plain_hashes net (claiming ∷ []) fresh (refl, tt) refl
