-- ===== src/Server/Api/Guards.antt =====
-- What a request without the rights for its route is answered, and the removal of a device.
use void_bridge.Base.{
  ℕ, ◌≡◌, ◌≢◌, filterb, refl, sym, subst, Bool, true, false, not, ◌&&◌, ◌||◌, List, [], ◌∷◌, none,
  some, Str, arith, inl, inr, Option-cases, Bool-cases, str_eq, bytes_eq_iff, ◌⊎◌,
}
use void_bridge.Base.Dict.{lookup, lookup-insert}
use void_bridge.Protocol.Crypto.{Hashes}
use void_bridge.Server.Store.{User, Session, Store, authenticate, touch_session, save, is_device}
use void_bridge.Server.Store.Sound.{IsSound}
use void_bridge.Server.Store.Keep.{authenticate-IsSound}
use void_bridge.Server.Store.Boss.{authenticate-rest}
use void_bridge.Server.Store.Access.{Unknown, revoke_device-Unknown}
use void_bridge.Server.Store.Admin
use void_bridge.Server.Hub.Kick.{cancels_of, sends_of, conns_of, live_conns, cancels_of-kick}
use void_bridge.Server.Api.{
  NetLibrary, Server, Fault, store_fault, admins_only, console_only, encrypted_only, refuses, done,
  Outcome, Outside, Request, refuse, with_store, from_private, fault_of, is_loopback, client_ip,
  admin, local_only, bearer,
}
use void_bridge.Server.Api.Account.{remove_device}
use void_bridge.Server.Api.Console.{
  list_users, patch_user, delete_user, list_invites, create_invite, revoke_invite,
}
use void_bridge.Server.Api.Mux.{Route, dispatch, serve}
use void_bridge.Server.Api.Steps.{admin-cases, auth-accepted}

-- Nothing was done but to note the use of a session.
pub record IsTurnedAway (s : Server) (x : Outcome) : Type 0 where
  pub code : ℕ
  pub fault : Fault
  pub replies : x.reply ≡ refuses code fault
  pub is_refusal : (code ≡ 401) ⊎ (code ≡ 403)
  pub no_effects : x.effects ≡ []
  pub same_users : x.server.store.mem.users ≡ s.store.mem.users
  pub same_invites : x.server.store.mem.invites ≡ s.store.mem.invites
  pub same_hub : x.server.hub ≡ s.hub
  pub same_limiter : x.server.limiter ≡ s.limiter

-- The token has a session of an enabled admin.
pub record IsAdminToken (hs : Hashes) (token : Str) (st : Store) : Type 0 where
  pub session : Session
  pub user : User
  pub has_session : lookup (hs.sha256_hex token) st.mem.sessions ≡ some session
  pub has_user : lookup session.user st.mem.users ≡ some user
  pub is_enabled : user.disabled ≡ false
  pub is_admin : user.admin ≡ true

-- The routes of admins and of the console, and whom they are for.
abbrev pub is_for_admins : Route → Bool
is_for_admins Route.admin_users = true
is_for_admins (Route.admin_patch name p) = true
is_for_admins (Route.admin_delete name) = true
is_for_admins Route.admin_invites = true
is_for_admins (Route.admin_invite q) = true
is_for_admins (Route.admin_revoke code) = true
is_for_admins _ = false

abbrev pub is_for_console : Route → Bool
is_for_console (Route.local_invite q) = true
is_for_console Route.local_users = true
is_for_console (Route.local_patch name p) = true
is_for_console _ = false

filterb-found :
    (p : Session → Bool) (k : Str) (m : List (Str × Session)) (se : Session)
    → lookup k m ≡ some se
    → p se ≡ true
    → filterb p (Admin.values m) ≢ []
unfolding lookup filterb
filterb-found p k [] se e h = absurd (ground arith)
filterb-found p k ((j, x) ∷ m) se e h = ground (arith, filterb-found p k m se)

revoke_device-known :
    (user dev k : Str) (st : Store) (se : Session)
    → lookup k st.mem.sessions ≡ some se
    → is_device user dev se ≡ true
    → fault_of (Admin.revoke_device false user dev st).1 ≡ none
unfolding save Admin.revoke_device
revoke_device-known user dev k st se e d =
    ground (arith, filterb-found (is_device user dev) k st.mem.sessions se e d)

module _ (hs : Hashes) where
  refuse-IsTurnedAway :
      (o : Outside) (token : Str) (s : Server) (code : ℕ) (e : Fault)
      → (code ≡ 401) ⊎ (code ≡ 403)
      → IsTurnedAway s
          (refuse code e (with_store (authenticate hs o.touch_fails o.now token s.store).0 s))
  refuse-IsTurnedAway o token s code e c =
      let (us, is) = authenticate-rest hs o.touch_fails o.now token s.store in
      record {
        code = code;
        fault = e;
        replies = refl;
        is_refusal = c;
        no_effects = refl;
        same_users = us;
        same_invites = is;
        same_hub = refl;
        same_limiter = refl;
      }

  admin-IsTurnedAway :
      (h : User → Server → Outcome) (o : Outside) (token : Str) (s : Server)
      → IsTurnedAway s (admin hs h o token s) ⊎ IsAdminToken hs token s.store
  admin-IsTurnedAway h o token s =
      admin-cases hs h o token s (λ x. IsTurnedAway s x ⊎ IsAdminToken hs token s.store)
        (λ e. inl (refuse-IsTurnedAway o token s 401 (store_fault e) (inl refl)))
        (inl (refuse-IsTurnedAway o token s 403 admins_only (inr refl)))
        (λ se u e e' d a. inr (record {
          session = se;
          user = u;
          has_session = e;
          has_user = e';
          is_enabled = d;
          is_admin = a;
        }))

  stay-IsTurnedAway : (s : Server) (e : Fault) → IsTurnedAway s (refuse 403 e s)
  stay-IsTurnedAway s e = record {
    code = 403;
    fault = e;
    replies = refl;
    is_refusal = inr refl;
    no_effects = refl;
    same_users = refl;
    same_invites = refl;
    same_hub = refl;
    same_limiter = refl;
  }

  module _ (net : NetLibrary) where
    dispatch-IsTurnedAway :
        (y : Route) (r : Request) (o : Outside) (s : Server)
        → is_for_admins y ≡ true
        → IsTurnedAway s (dispatch hs net y r o s) ⊎ IsAdminToken hs (bearer r) s.store
    unfolding dispatch
    dispatch-IsTurnedAway Route.admin_users r o s h = admin-IsTurnedAway list_users o (bearer r) s
    dispatch-IsTurnedAway (Route.admin_patch name p) r o s h =
        admin-IsTurnedAway (patch_user o name p) o (bearer r) s
    dispatch-IsTurnedAway (Route.admin_delete name) r o s h =
        admin-IsTurnedAway (delete_user o name) o (bearer r) s
    dispatch-IsTurnedAway Route.admin_invites r o s h =
        admin-IsTurnedAway (list_invites o) o (bearer r) s
    dispatch-IsTurnedAway (Route.admin_invite q) r o s h =
        admin-IsTurnedAway (create_invite o q) o (bearer r) s
    dispatch-IsTurnedAway (Route.admin_revoke code) r o s h =
        admin-IsTurnedAway (revoke_invite o code) o (bearer r) s
    dispatch-IsTurnedAway _ r o s h = absurd (ground arith)

    -- A request to one of the admins' routes whose token has no session of an enabled admin is
    -- refused with 401 or 403, and users, invites, hub and limiter stay as they were.
    pub serve-IsTurnedAway :
        (y : Route) (r : Request) (o : Outside) (s : Server)
        → is_for_admins y ≡ true
        → ¬ IsAdminToken hs (bearer r) s.store
        → IsTurnedAway s (serve hs net y r o s)
    unfolding serve
    serve-IsTurnedAway y r o s h n = elim (Bool-cases (not r.tls && not (from_private net r))) [
      | inl e ↦ rw (serve, e) (stay-IsTurnedAway s encrypted_only)
      | inr e ↦
          rw (serve, e)
            (elim (dispatch-IsTurnedAway y r o s h) [ inl t ↦ t | inr a ↦ absurd (n a) ])
    ]

    pub local_only-refuses :
        (h : User → Server → Outcome) (r : Request) (s : Server)
        → (s.no_console || not (is_loopback (net.parse_ip (client_ip net r)))) ≡ true
        → local_only net h r s ≡ refuse 403 console_only s
    unfolding local_only
    local_only-refuses h r s e = rw (local_only, e) refl

    -- The console's routes answer 403 to every address but the server's own, and to that too if
    -- the console is off; the server stays as it was.
    pub serve-console_only :
        (y : Route) (r : Request) (o : Outside) (s : Server)
        → is_for_console y ≡ true
        → (s.no_console || not (is_loopback (net.parse_ip (client_ip net r)))) ≡ true
        → (e : Fault) × (serve hs net y r o s ≡ refuse 403 e s)
    unfolding serve dispatch
    serve-console_only y r o s h e = elim (Bool-cases (not r.tls && not (from_private net r))) [
      | inl f ↦ rw (serve, f) (encrypted_only, refl)
      | inr f ↦ rw (serve, f) (console_only, go y h)
    ]
      where
        go :
            (y : Route)
            → is_for_console y ≡ true
            → dispatch hs net y r o s ≡ refuse 403 console_only s
        go (Route.local_invite q) h = local_only-refuses (create_invite o q) r s e
        go Route.local_users h = local_only-refuses list_users r s e
        go (Route.local_patch name p) h = local_only-refuses (patch_user o name p) r s e
        go _ h = absurd (ground arith)

  -- The touch of the caller's session leaves every session to its user and device.
  pub touched-session :
      (f : Bool) (now : ℕ) (token tok user dev : Str) (st : Store) (se : Session)
      → lookup (hs.sha256_hex tok) st.mem.sessions ≡ some se
      → is_device user dev se ≡ true
      → (se' : Session) × (lookup
            (hs.sha256_hex tok)
            (authenticate hs f now token st).0.mem.sessions
          ≡ some se')
        × (is_device user dev se' ≡ true)
  unfolding authenticate touch_session save
  touched-session f now token tok user dev st se e d =
      elim (Option-cases (lookup (hs.sha256_hex token) st.mem.sessions)) [
        | inl e' ↦ (se, ground arith, d)
        | inr (t, e') ↦
            let t' : Session = record t { last_seen = now } in
            let all = lookup-insert (hs.sha256_hex token) (hs.sha256_hex tok) t' st.mem.sessions in
            let iff = bytes_eq_iff (hs.sha256_hex token) (hs.sha256_hex tok) in
            elim (Option-cases
              (lookup (hs.sha256_hex tok) (authenticate hs f now token st).0.mem.sessions)) [
                | inl no' ↦ absurd (ground (arith, all, iff))
                | inr (se', e'') ↦ (se', e'', ground (arith, all, iff))
              ]
      ]

  module _ (net : NetLibrary) where
    -- A user, who is not disabled, removes one of the account's devices, and the disk takes the
    -- write: then every token of the device is refused, the answer is success, each connection
    -- that the hub has of this device and account is cancelled, each once, and no other connection
    -- is, and no message is sent. Connections are told apart by their numbers.
    pub serve-delete_device :
        (r : Request) (o : Outside) (s : Server) (id tok : Str) (mine se : Session) (u : User)
        → (n : ℕ) → IsSound s.store.mem
        → (not r.tls && not (from_private net r)) ≡ false
        → lookup (hs.sha256_hex (bearer r)) s.store.mem.sessions ≡ some mine
        → lookup mine.user s.store.mem.users ≡ some u
        → u.disabled ≡ false
        → lookup (hs.sha256_hex tok) s.store.mem.sessions ≡ some se
        → is_device u.name id se ≡ true
        → o.fails ≡ false
        → let x = serve hs net (Route.delete_device id) r o s in
          Unknown hs tok x.server.store
          × (x.reply ≡ done)
          × (cancels_of n x.effects ≡ conns_of n id (live_conns u.name s.hub))
          × (sends_of x.effects ≡ 0)
    unfolding serve dispatch remove_device
    serve-delete_device r o s id tok mine se u n v safe e e' d known dev ok' =
        let s' = with_store (authenticate hs o.touch_fails o.now (bearer r) s.store).0 s in
        let (se', known', dev') =
          touched-session o.touch_fails o.now (bearer r) tok u.name id s.store se known dev in
        let there : fault_of (Admin.revoke_device o.fails u.name id s'.store).1 ≡ none =
          rw ok' (revoke_device-known u.name id (hs.sha256_hex tok) s'.store se' known' dev') in
        rw (serve, safe)
          (subst
            (λ x.
              Unknown hs tok x.server.store
              × (x.reply ≡ done)
              × (cancels_of n x.effects ≡ conns_of n id (live_conns u.name s.hub))
              × (sends_of x.effects ≡ 0))
            (sym (auth-accepted hs (λ t. remove_device o id) o (bearer r) s mine u e e' d))
            (rw (remove_device, there)
              (
                revoke_device-Unknown hs o.fails tok u.name id s'.store se'
                    (authenticate-IsSound hs o.touch_fails o.now (bearer r) s.store v) known' dev',
                refl,
                (cancels_of-kick n u.name id s.hub).0,
                (cancels_of-kick n u.name id s.hub).1,
              )))
