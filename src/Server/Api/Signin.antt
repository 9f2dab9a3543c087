-- ===== src/Server/Api/Signin.antt =====
-- Signing in: the token that is handed out works, and failures end in a block.
use void_bridge.Base.{
  ℕ, ◌≡◌, refl, ap, sym, subst, ◌∙◌, Bool, true, false, not, ◌&&◌, Option, none, some, Str, arith,
  inl, inr, Option-cases, Bool-cases, str_eq, ◌==◌, eq_refl,
}
use void_bridge.Base.Dict.{lookup, lookup-insert}
use void_bridge.Protocol.Crypto.{Hashes}
use void_bridge.Protocol.Code.{normalize_username}
use void_bridge.Server.Store.{
  User, Invite, Session, Store, Error, Result, ok, err, unsaved, authenticate, new_session,
  check_login, save, enrol, seen_at, spend, is_first, new_user, with_users,
}
use void_bridge.Server.Store
use void_bridge.Server.Store.Sound.{IsSound}
use void_bridge.Server.Store.Keep.{register_cases, register-IsSound}
use void_bridge.Server.Store.Enrol.{account, enrol-state}
use void_bridge.Server.Store.Access.{opened, authenticate-answer, answer-ok, new_session-lookup}
use void_bridge.Server.Limiter.{blocked, fail}
use void_bridge.Server.Api.{
  NetLibrary, Server, Credentials, LoginResult, Fault, store_fault, too_many_attempts,
  unreadable_body, encrypted_only, home_network_first, Reply, signs_in, Outcome, Outside, Request,
  refuse, with_store, with_limiter, fault_of, client_ip, from_private,
}
use void_bridge.Server.Api.Account.{
  issue, registered, register_from, login_as, login_from, register, login, key_of, signup_open,
  user_key,
}
use void_bridge.Server.Api.Mux.{Route, dispatch, serve}

-- The store accepts the token of a sign-in, for its user and with its rights.
pub record IsAccepted (hs : Hashes) (f : Bool) (now : ℕ) (t : LoginResult) (st : Store)
    : Type 0 where
  pub session : Session
  pub user : User
  pub accepted : (authenticate hs f now t.token st).1 ≡ ok (session, user)
  pub its_name : user.name ≡ t.username
  pub its_admin : user.admin ≡ t.admin

abbrev login_of : LoginResult → Reply → LoginResult
login_of d (signs_in t) = t
login_of d _ = d

module _ (hs : Hashes) (f : Bool) (later : ℕ) where
  -- If the reply is a sign-in, its token is accepted.
  abbrev Works : Outcome → Type 0
  Works x = (t : LoginResult) → x.reply ≡ signs_in t → IsAccepted hs f later t x.server.store

  refuse-Works : (code : ℕ) (e : Fault) (s : Server) → Works (refuse code e s)
  refuse-Works code e s t y = absurd (ground arith)

  issue-Works :
      (o : Outside) (u : User) (c : Credentials) (s : Server)
      → IsSound s.store.mem
      → lookup u.name s.store.mem.users ≡ some u
      → u.disabled ≡ false
      → Works (issue hs o u c s)
  unfolding issue
  issue-Works o u c s v here on =
      let call =
        new_session hs o.fails_again o.now o.token u.name c.device_id c.device_name c.device_kind
          s.store in
      let (mine, same) =
        new_session-lookup hs o.fails_again o.now o.token u.name c.device_id c.device_name
          c.device_kind s.store (hs.sha256_hex o.token) v in
      let se = opened hs o.now u.name c.device_id c.device_name c.device_kind in
      let works : (authenticate hs f later o.token call.0).1 ≡ ok (seen_at later se, u) =
        authenticate-answer hs f later o.token call.0
        ∙ rw (mine, same, eq_refl (hs.sha256_hex o.token))
            (answer-ok hs later se u s.store.mem.users here on) in
      let mine' : LoginResult = record { token = o.token; username = u.name; admin = u.admin } in
      elim (Option-cases (fault_of call.1)) [
        | inl e ↦
            rw (issue, e)
              (λ t y.
                subst (λ z. IsAccepted hs f later z call.0) (ap (login_of mine') y)
                  (record {
                    session = seen_at later se;
                    user = u;
                    accepted = works;
                    its_name = refl;
                    its_admin = refl;
                  }))
        | inr (x, e) ↦ rw (issue, e) (refuse-Works 500 (store_fault x) (with_store call.0 s))
      ]

  enrol-there :
      (fails : Bool) (now : ℕ) (name key code : Str) (inv : Option Invite) (st : Store) (u : User)
      → (enrol hs fails now name key code inv st).1 ≡ ok u
      → (lookup u.name (enrol hs fails now name key code inv st).0.mem.users ≡ some u)
        × (u.disabled ≡ false)
  enrol-there fails now name key code inv st u h = elim (Option-cases (lookup name st.mem.users)) [
    | inr (w, e) ↦ absurd (unfold enrol in (ground arith))
    | inl e ↦
        let (made, users, _) = enrol-state hs fails now name key code inv st e in
        let v = new_user hs now name key (is_first st) in
        let same : v ≡ u = ground (arith, ap account h) in
        let named : name ≡ u.name = ap (λ w. w.name) same in
        (
          subst (λ n. lookup n (enrol hs fails now name key code inv st).0.mem.users ≡ some u) named
              (rw users (lookup-insert name name v st.mem.users ∙ rw (eq_refl name, same) refl)),
          ap (λ w. w.disabled) (sym same),
        )
  ]

  -- An account that a registration gives is there, under its name, and not disabled.
  register-there :
      (fails : Bool) (now : ℕ) (raw key code : Str) (need : Bool) (st : Store) (u : User)
      → let x = Store.register hs fails now raw key code need st in
        x.1 ≡ ok u → (lookup u.name x.0.mem.users ≡ some u) × (u.disabled ≡ false)
  register-there fails now raw key code need st u =
      register_cases hs fails now raw key code need st
        (λ x. x.1 ≡ ok u → (lookup u.name x.0.mem.users ≡ some u) × (u.disabled ≡ false))
        (λ e h. absurd (ground arith))
        (λ inv good held h. enrol-there fails now (normalize_username raw) key code inv st u h)

  registered-Works :
      (ip : Str) (o : Outside) (c : Credentials) (res : Result User) (s : Server)
      → IsSound s.store.mem
      → ((u : User)
          → res ≡ ok u
          → (lookup u.name s.store.mem.users ≡ some u) × (u.disabled ≡ false))
      → Works (registered hs ip o c res s)
  unfolding registered
  registered-Works ip o c (ok u) s v h = issue-Works o u c s v (h u refl).0 (h u refl).1
  registered-Works ip o c (err Error.bad_invite) s v h =
      refuse-Works 400 (store_fault Error.bad_invite) (with_limiter (fail o.now ip s.limiter) s)
  registered-Works ip o c (err e) s v h = refuse-Works 400 (store_fault e) s
  registered-Works ip o c (unsaved u) s v h = refuse-Works 400 (store_fault Error.not_saved) s

  register_from-Works :
      (ip : Str) (home : Bool) (o : Outside) (c : Credentials) (k : Str) (s : Server)
      → IsSound s.store.mem
      → Works (register_from hs ip home o c k s)
  unfolding register_from
  register_from-Works ip home o c k s v =
      let need = not (s.signup == signup_open) in
      let s' = with_limiter (blocked o.now ip s.limiter).0 s in
      let made = Store.register hs o.fails o.now c.username k c.invite need s.store in
      elim (Bool-cases (blocked o.now ip s.limiter).1) [
        | inl e ↦ rw (register_from, e) (refuse-Works 429 too_many_attempts s')
        | inr e ↦ elim (Bool-cases (not (Store.has_users s.store) && not home)) [
          | inl f' ↦ rw (register_from, e, f') (refuse-Works 403 home_network_first s')
          | inr f' ↦
              rw (register_from, e, f')
                (registered-Works ip o c made.1 (with_store made.0 s')
                  (register-IsSound hs o.fails o.now c.username k c.invite need s.store v)
                  (register-there o.fails o.now c.username k c.invite need s.store))
        ]
      ]

  check_login-there :
      (name k : Str) (st : Store) (u : User)
      → IsSound st.mem
      → check_login hs name k st ≡ ok u
      → (lookup u.name st.mem.users ≡ some u) × (u.disabled ≡ false)
  unfolding check_login
  check_login-there name k st u v h =
      elim (Option-cases (lookup (normalize_username name) st.mem.users)) [
        | inl e ↦ absurd (ground arith)
        | inr (w, e) ↦
            let named = (v.users_sound.named (normalize_username name) w e).0 in
            let same : w ≡ u = ground arith in (ground (arith, named, same), ground arith)
      ]

  login_as-Works :
      (ip user : Str) (o : Outside) (c : Credentials) (k : Str) (s : Server)
      → IsSound s.store.mem
      → Works (login_as hs ip user o c k s)
  unfolding login_as
  login_as-Works ip user o c k s v = go (check_login hs user k s.store) refl
    where
      go :
          (x : Result User)
          → check_login hs user k s.store ≡ x
          → Works (elim x as (λ _. Outcome) [
            | ok u ↦ issue hs o u c s
            | err e ↦
                refuse 401
                  (store_fault e)
                  (with_limiter (fail o.now (user_key hs user) (fail o.now ip s.limiter)) s)
            | unsaved _ ↦
                refuse 401
                  (store_fault Error.not_saved)
                  (with_limiter (fail o.now (user_key hs user) (fail o.now ip s.limiter)) s)
          ])
      go (ok u) e =
          let (here, on) = check_login-there user k s.store u v e in issue-Works o u c s v here on
      go (err x) e = λ t y. absurd (ground arith)
      go (unsaved x) e = λ t y. absurd (ground arith)

  login_from-Works :
      (ip : Str) (o : Outside) (c : Credentials) (k : Str) (s : Server)
      → IsSound s.store.mem
      → Works (login_from hs ip o c k s)
  unfolding login_from
  login_from-Works ip o c k s v =
      let user = normalize_username c.username in
      let l = blocked o.now ip s.limiter in
      let l' = blocked o.now (user_key hs user) l.0 in
      elim (Bool-cases l.1) [
        | inl e ↦ rw (login_from, e) (refuse-Works 429 too_many_attempts (with_limiter l.0 s))
        | inr e ↦ elim (Bool-cases l'.1) [
          | inl g ↦ rw (login_from, e, g) (refuse-Works 429 too_many_attempts (with_limiter l'.0 s))
          | inr g ↦ rw (login_from, e, g) (login_as-Works ip user o c k (with_limiter l'.0 s) v)
        ]
      ]

  register-Works :
      (net : NetLibrary) (r : Request) (c : Option Credentials) (o : Outside) (s : Server)
      → IsSound s.store.mem
      → Works (register hs net r c o s)
  unfolding register
  register-Works net r none o s v = refuse-Works 400 unreadable_body s
  register-Works net r (some c) o s v =
      elim (key_of net c)
        as (λ k. Works (elim k as (λ _. Outcome) [
          | inl e ↦ refuse 400 e s
          | inr k ↦ register_from hs (client_ip net r) (from_private net r) o c k s
        ])) [
          | inl e ↦ refuse-Works 400 e s
          | inr k ↦ register_from-Works (client_ip net r) (from_private net r) o c k s v
        ]

  login-Works :
      (net : NetLibrary) (r : Request) (c : Option Credentials) (o : Outside) (s : Server)
      → IsSound s.store.mem
      → Works (login hs net r c o s)
  unfolding login
  login-Works net r none o s v = refuse-Works 400 unreadable_body s
  login-Works net r (some c) o s v =
      elim (key_of net c)
        as (λ k. Works (elim k as (λ _. Outcome) [
          | inl e ↦ refuse 400 e s
          | inr k ↦ login_from hs (client_ip net r) o c k s
        ])) [ inl e ↦ refuse-Works 400 e s | inr k ↦ login_from-Works (client_ip net r) o c k s v ]

  -- The routes that hand out tokens.
  abbrev pub hands_out : Route → Bool
  hands_out (Route.post_register c) = true
  hands_out (Route.post_login c) = true
  hands_out _ = false

  -- If a registration or a login is answered with a token, then in the store that it leaves, which
  -- was well formed before, the token is accepted at any time, for an account of the name and with
  -- the rights that the answer says.
  pub serve-IsAccepted :
      (net : NetLibrary) (y : Route) (r : Request) (o : Outside) (s : Server) (t : LoginResult)
      → IsSound s.store.mem
      → hands_out y ≡ true
      → (serve hs net y r o s).reply ≡ signs_in t
      → IsAccepted hs f later t (serve hs net y r o s).server.store
  unfolding serve
  serve-IsAccepted net y r o s t v h = elim (Bool-cases (not r.tls && not (from_private net r))) [
    | inl e ↦ rw (serve, e) (refuse-Works 403 encrypted_only s t)
    | inr e ↦ rw (serve, e) (go y h)
  ]
    where
      go :
          (y : Route)
          → hands_out y ≡ true
          → (dispatch hs net y r o s).reply ≡ signs_in t
          → IsAccepted hs f later t (dispatch hs net y r o s).server.store
      go (Route.post_register c) h = unfold dispatch in register-Works net r c o s v t
      go (Route.post_login c) h = unfold dispatch in login-Works net r c o s v t
      go _ h = absurd (ground arith)
