-- ===== src/Tests/Accounts.antt =====
-- A server with an admin, an invite for two and a session.
use void_bridge.Base.{
  ℕ, ◌≡◌, refl, true, false, List, [], ◌∷◌, Option, none, some, Str, arith, codes, bytes_eq, ◌+◌,
  bytes_eq_iff, str_eq, ◌∙◌, sym, if◌then◌else◌, ltb, leb,
}
use void_bridge.Base.Dict.{lookup, insert, delete, sweep}
use void_bridge.Protocol.Code.{normalize_code, normalize_username}
use void_bridge.Server.Store.{
  User, Invite, Session, StoreData, Store, ok, err, bad_login, register, new_session, authenticate,
  logout, seen_at, is_username, open_store, save, spend, enrol, usable_invite, is_expired,
}
use void_bridge.Server.Store.Admin.{revoke_device, delete_user}
use void_bridge.Server.Store.Sound.{IsSound}
use void_bridge.Server.Store.Keep.{Held}
use void_bridge.Server.Store.Ops
use void_bridge.Server.Store.Ops.{Op, registers, opens_session, lists_invites, step, run}
use void_bridge.Server.Store.Access
use void_bridge.Server.Store.Enrol
use void_bridge.Server.Store.Enrol.{Attempt, Enrolled, account, admissions, attempts, credit}
use void_bridge.Server.Store.Revoked
use void_bridge.Server.Limiter
use void_bridge.Server.Limiter.{blocked, fail, fail_all, fails_of}
use void_bridge.Tests.Cipher.{plain_hashes}

program : Unit {0}
unfolding normalize_code normalize_username register new_session authenticate logout is_username
    lookup insert delete sweep bytes_eq revoke_device delete_user save spend enrol usable_invite
    is_expired
program = tt

abbrev pub admin : User
admin = record {
  name = codes "root";
  auth_hash = codes "h";
  admin = true;
  disabled = false;
  created = 1;
}

abbrev pub for_two : Invite
for_two = record {
  code = codes "ABCDEFGHIJKL";
  created_by = codes "root";
  created = 2;
  expires = 0;
  uses_left = 2;
  note = [];
}

abbrev pub on_phone : Session
on_phone = record {
  user = codes "root";
  device_id = codes "ph";
  device_name = codes "phone";
  device_kind = codes "android";
  created = 3;
  last_seen = 3;
}

abbrev pub data_now : StoreData
data_now = record {
  users = (codes "root", admin) ∷ [];
  invites = (codes "ABCDEFGHIJKL", for_two) ∷ [];
  sessions = (codes "tok", on_phone) ∷ [];
}

abbrev pub server : Store
server = record { mem = data_now; disk = data_now; closed = false }

lookup_one :
    {V : Type 0} (j k : Str) (v w : V) → lookup k ((j, v) ∷ []) ≡ some w → (j ≡ k) × (v ≡ w)
unfolding lookup
lookup_one j k v w h = ground (arith, bytes_eq_iff j k)

pub server-IsSound : IsSound server.mem
unfolding program
server-IsSound = record {
  users_sound = record {
    users_distinct = ground arith;
    named =
        λ k u e. let (p, q) = lookup_one (codes "root") k admin u e in rw (← p, ← q) (refl, refl);
  };
  invites_sound = record {
    invites_distinct = ground arith;
    coded = λ k i e.
        let (p, q) = lookup_one (codes "ABCDEFGHIJKL") k for_two i e in
        rw (← p, ← q) (refl, omega arith);
  };
  sessions_sound = record {
    sessions_distinct = ground arith;
    single = λ j k a b e f u d.
        sym (lookup_one (codes "tok") j on_phone a e).0
        ∙ (lookup_one (codes "tok") k on_phone b f).0;
  };
}

abbrev pub long_key : Str
long_key = codes "0123456789abcdef0123456789abcdef"

abbrev signs_up : Op
signs_up = registers false 5 (codes " Root ") long_key [] true

open_store-run-IsSound_example :
    IsSound (run plain_hashes (signs_up ∷ lists_invites 7 ∷ []) (open_store none)).mem
open_store-run-IsSound_example =
    Ops.open_store-run-IsSound plain_hashes (signs_up ∷ lists_invites 7 ∷ [])

authenticate-new_session_example :
    let s' =
      (new_session plain_hashes false 9
        (codes "new")
        (codes "root")
        (codes "ph")
        (codes "phone")
        (codes "android")
        server).0 in
    ((authenticate plain_hashes false 10 (codes "new") s').1
      ≡ ok (
        seen_at 10 (
            Access.opened plain_hashes 9
              (codes "root")
              (codes "ph")
              (codes "phone")
              (codes "android")),
        admin,
      ))
    × ((authenticate plain_hashes false 10 (codes "tok") s').1 ≡ err bad_login)
unfolding program
authenticate-new_session_example =
    Access.authenticate-new_session plain_hashes false false 9 10 (codes "new") (codes "tok")
      (codes "root") (codes "ph") (codes "phone") (codes "android") server admin server-IsSound refl
      refl (λ e. ground arith)

abbrev afterwards : List Op
afterwards = opens_session false 9 (codes "new") (codes "root") (codes "ph") [] [] ∷ signs_up ∷ []

afterwards-SparesAll : Revoked.SparesAll plain_hashes (codes "tok") afterwards
afterwards-SparesAll = ((λ e. ground arith), (tt, tt))

revoke_device-run_example :
    (authenticate plain_hashes false 20
      (codes "tok")
      (run plain_hashes afterwards (revoke_device false (codes "root") (codes "ph") server).0)).1
    ≡ err bad_login
unfolding program
revoke_device-run_example =
    Revoked.revoke_device-run plain_hashes (codes "tok") false false 20 afterwards server
      (codes "root") (codes "ph") on_phone server-IsSound refl refl afterwards-SparesAll

abbrev invited : Str → Attempt plain_hashes
invited name = record {
  fails = false;
  now = 8;
  raw = name;
  key = long_key;
  code = codes "abcd-efgh-ijkl";
}

abbrev three : List (Attempt plain_hashes)
three = invited (codes "ann") ∷ invited (codes "bob") ∷ invited (codes "carl") ∷ []

admissions-credit_example :
    admissions plain_hashes (codes "ABCDEFGHIJKL") three server
      + credit (codes "ABCDEFGHIJKL") (attempts plain_hashes three server)
    ≡ credit (codes "ABCDEFGHIJKL") server
admissions-credit_example =
    Enrol.admissions-credit plain_hashes (codes "ABCDEFGHIJKL") three server server-IsSound refl

abbrev carl : User
carl = record {
  name = codes "carl";
  auth_hash = long_key;
  admin = false;
  disabled = false;
  created = 8;
}

carl-account :
    account
      (register plain_hashes false 8 (codes "Carl") long_key (codes "abcd-efgh-ijkl") true server).1
    ≡ some carl
unfolding program
carl-account = refl

register-Enrolled_example :
    (inv : Option Invite) × (is_username (normalize_username (codes "Carl")) ≡ true)
    × Held (codes "abcd-efgh-ijkl") inv server
    × Enrolled plain_hashes
        (normalize_username (codes "Carl"))
        (codes "abcd-efgh-ijkl")
        inv
        server
        (register plain_hashes false 8
          (codes "Carl")
          long_key
          (codes "abcd-efgh-ijkl")
          true
          server).0
        carl
register-Enrolled_example =
    Enrol.register-Enrolled plain_hashes false 8 (codes "Carl") long_key (codes "abcd-efgh-ijkl")
      true server carl server-IsSound carl-account

unknown_code :
    account (register plain_hashes false 8 (codes "Carl") long_key (codes "zzzz") true server).1
    ≡ none
unfolding program
unknown_code = refl

abbrev guesses : List (ℕ × Str)
guesses = (11, codes "ip1") ∷ (12, codes "ip2") ∷ (13, codes "ip1") ∷ []

blocked-fail_all_example :
    (blocked 14 (codes "ip1") (fail_all guesses (fail 10 (codes "ip1") []))).1 ≡ (
      if ltb (10 + Limiter.fail_window) 14
      then false
      else leb Limiter.max_fails (1 + fails_of (codes "ip1") guesses))
unfolding program
blocked-fail_all_example =
    Limiter.blocked-fail_all 14 10 (codes "ip1") guesses [] tt refl (omega arith)
