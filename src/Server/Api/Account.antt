-- ===== src/Server/Api/Account.antt =====
-- internal/server/server.go: accounts and devices, signing in and out, and the WebSocket's start.
use void_bridge.Base.{
  Bool, true, false, not, ◌&&◌, ◌||◌, List, [], ◌∷◌, ◌++◌, map, Option, none, some, Str, str_eq,
  ◌==◌, if◌then◌else◌, codes, length, nat_beq, ltb, ◌⊎◌, inl, inr,
}
use void_bridge.Protocol.Crypto.{Hashes}
use void_bridge.Protocol.Code.{normalize_username}
use void_bridge.Protocol.Message
use void_bridge.Server.Store.{
  User, Session, Store, Error, Result, ok, err, unsaved, has_users, new_session, check_login,
  logout, authenticate,
}
use void_bridge.Server.Store
use void_bridge.Server.Store.Admin.{devices, revoke_device}
use void_bridge.Server.Limiter.{blocked, fail}
use void_bridge.Server.Hub.{Conn, kick, online, connect}
use void_bridge.Server.Api.{
  NetLibrary, Server, Credentials, Fault, store_fault, unreadable_body, bad_key, bad_device,
  too_many_attempts, home_network_first, tells_info, signs_in, done, upgrades, drops_upgrade,
  shows_me, Outcome, Outside, Request, answer, refuse, with_store, with_limiter, bearer, fault_of,
  client_ip, from_private, auth,
}

abbrev pub signup_open : Str
signup_open = codes "open"

unfoldable pub info : Server → Outcome
info s =
    answer
      (tells_info (record {
        server = codes "voidbridge";
        protocol = Message.version;
        version = s.version;
        name = s.name;
        signup = s.signup;
        has_users = has_users s.store;
      }))
      s

abbrev pub is_mem : Str → List Str → Bool
is_mem x [] = false
is_mem x (y ∷ ys) = if y == x then true else is_mem x ys

unfoldable pub me : Session → User → Server → Outcome
me se u s =
    let there = online u.name s.hub in
    answer
      (shows_me (record {
        username = u.name;
        admin = u.admin;
        devices =
            map
              (λ (d : Session). record {
                id = d.device_id;
                name = d.device_name;
                kind = d.device_kind;
                online = is_mem d.device_id there;
                last_seen = d.last_seen;
                this = d.device_id == se.device_id;
              })
              (devices u.name s.store);
      }))
      s

unfoldable pub remove_device : Outside → Str → User → Server → Outcome
remove_device o id u s =
    let (st, res) = revoke_device o.fails u.name id s.store in
    elim (fault_of res) [
      | some e ↦ refuse 404 (store_fault e) (with_store st s)
      | none ↦ record { server = with_store st s; reply = done; effects = kick u.name id s.hub }
    ]

module _ (net : NetLibrary) where
  -- `Credentials.key`
  unfoldable pub key_of : Credentials → Fault ⊎ Str
  key_of c = elim (net.decode64 c.auth_key) [
    | none ↦ inl bad_key
    | some k ↦
        if not (nat_beq (length k) 32)
        then inl bad_key
        else if (c.device_id == [])
            || (ltb 64 (length c.device_id) || ltb 100 (length c.device_name))
        then inl bad_device
        else inr k
  ]

module _ (hs : Hashes) where
  -- `issue`
  unfoldable pub issue : Outside → User → Credentials → Server → Outcome
  issue o u c s =
      let (st, res) =
        new_session hs o.fails_again o.now o.token u.name c.device_id c.device_name c.device_kind
          s.store in
      elim (fault_of res) [
        | some e ↦ refuse 500 (store_fault e) (with_store st s)
        | none ↦
            answer (signs_in (record { token = o.token; username = u.name; admin = u.admin }))
              (with_store st s)
      ]

  -- `register` after the call of the store.
  unfoldable pub registered : Str → Outside → Credentials → Result User → Server → Outcome
  unfolding issue
  registered ip o c (ok u) s = issue o u c s
  registered ip o c (err Error.bad_invite) s =
      refuse 400 (store_fault Error.bad_invite) (with_limiter (fail o.now ip s.limiter) s)
  registered ip o c (err e) s = refuse 400 (store_fault e) s
  registered ip o c (unsaved u) s = refuse 400 (store_fault Error.not_saved) s

  -- `register` after the checks of the body.
  unfoldable pub register_from : Str → Bool → Outside → Credentials → Str → Server → Outcome
  unfolding registered
  register_from ip home o c k s =
      let (l, stopped) = blocked o.now ip s.limiter in
      let s' = with_limiter l s in
      if stopped
      then refuse 429 too_many_attempts s'
      else if not (has_users s.store) && not home
      then refuse 403 home_network_first s'
      else (let (st, res) =
            Store.register hs o.fails o.now c.username k c.invite (not (s.signup == signup_open))
              s.store in
          registered ip o c res (with_store st s'))

  abbrev pub user_key : Str → Str
  user_key user = codes "user:" ++ user

  -- `login` after the limiter.
  unfoldable pub login_as : Str → Str → Outside → Credentials → Str → Server → Outcome
  unfolding issue
  login_as ip user o c k s = elim (check_login hs user k s.store) [
    | ok u ↦ issue o u c s
    | err e ↦
        refuse 401 (store_fault e)
          (with_limiter (fail o.now (user_key user) (fail o.now ip s.limiter)) s)
    | unsaved _ ↦
        refuse 401 (store_fault Error.not_saved)
          (with_limiter (fail o.now (user_key user) (fail o.now ip s.limiter)) s)
  ]

  -- `login` after the checks of the body; the user is asked for only if the address is not blocked.
  unfoldable pub login_from : Str → Outside → Credentials → Str → Server → Outcome
  unfolding login_as
  login_from ip o c k s =
      let user = normalize_username c.username in
      let (l, stopped) = blocked o.now ip s.limiter in
      if stopped
      then refuse 429 too_many_attempts (with_limiter l s)
      else (let (l', stopped') = blocked o.now (user_key user) l in
          if stopped'
          then refuse 429 too_many_attempts (with_limiter l' s)
          else login_as ip user o c k (with_limiter l' s))

  unfoldable pub sign_out : Outside → Str → Session → User → Server → Outcome
  sign_out o token se u s =
      let (st, _) = logout hs o.fails token s.store in
      record { server = with_store st s; reply = done; effects = kick u.name se.device_id s.hub }

  module _ (net : NetLibrary) where
    unfoldable pub register : Request → Option Credentials → Outside → Server → Outcome
    unfolding register_from
    register r none o s = refuse 400 unreadable_body s
    register r (some c) o s = elim (key_of net c) [
      | inl e ↦ refuse 400 e s
      | inr k ↦ register_from (client_ip net r) (from_private net r) o c k s
    ]

    unfoldable pub login : Request → Option Credentials → Outside → Server → Outcome
    unfolding login_from
    login r none o s = refuse 400 unreadable_body s
    login r (some c) o s = elim (key_of net c) [
      | inl e ↦ refuse 400 e s
      | inr k ↦ login_from (client_ip net r) o c k s
    ]

  abbrev pub conn_of : Outside → Str → Session → User → Conn
  conn_of o token se u = record {
    handle = o.handle;
    user = u.name;
    device_id = se.device_id;
    device_name = se.device_name;
    device_kind = se.device_kind;
    token = token;
  }

  -- `sync` up to its read loop, for a session that was accepted.
  unfoldable pub join : Outside → Str → Session → User → Server → Outcome
  join o token se u s =
      if o.upgrade_fails
      then answer drops_upgrade s
      else (let (h, es) = connect (conn_of o token se u) s.hub in
          record { server = record s { hub = h }; reply = upgrades; effects = es })

  abbrev pub sync_token : Request → Str
  sync_token r = if bearer r == [] then r.query_token else bearer r

  unfoldable pub sync : Request → Outside → Server → Outcome
  unfolding join
  sync r o = auth hs (join o (sync_token r)) o (sync_token r)
