-- ===== src/Server/Api/Steps.antt =====
-- What the handlers of accounts make of the store: operations of the store.
use void_bridge.Base.{
  ℕ, ◌≡◌, refl, ap, sym, subst, ◌∙◌, Bool, true, false, not, ◌&&◌, List, [], ◌∷◌, ◌++◌, Option,
  none, some, Str, arith, inl, inr, Option-cases, Bool-cases, str_eq, ◌==◌, All, All-append, ◌⊎◌,
  if◌then◌else◌,
}
use void_bridge.Base.Dict.{lookup}
use void_bridge.Protocol.Crypto.{Hashes}
use void_bridge.Protocol.Code.{normalize_username}
use void_bridge.Server.Store.{
  User, Session, Store, Error, Result, ok, err, unsaved, hour, authenticate, check_login, seen_at,
  new_session,
}
use void_bridge.Server.Store
use void_bridge.Server.Store.Ops.{Op, registers, opens_session, logs_out, step, run}
use void_bridge.Server.Store.Boss.{harms}
use void_bridge.Server.Limiter.{blocked, fail}
use void_bridge.Server.Api.{
  NetLibrary, Server, Credentials, store_fault, admins_only, Outcome, Outside, Request, refuse,
  with_store, with_limiter, fault_of, client_ip, from_private, auth, admin, if_admin,
}
use void_bridge.Server.Api.Account.{
  issue, registered, register_from, login_as, login_from, key_of, register, user_key, login,
  sign_out, join, signup_open,
}

-- The store is as after operations that all have a property.
pub record Refines (hs : Hashes) (P : Op → Type 0) (st st' : Store) : Type 0 where
  pub ops : List Op
  pub allowed : All P ops
  pub same : st' ≡ run hs ops st

-- An operation that harms no account.
abbrev pub IsQuiet : Op → Type 0
IsQuiet o = (me : Str) → harms me o ≡ false

module _ (hs : Hashes) where
  pub Refines-none : (P : Op → Type 0) (st : Store) → Refines hs P st st
  unfolding run
  Refines-none P st = record { ops = []; allowed = tt; same = refl }

  pub Refines-one : (P : Op → Type 0) (st : Store) (o : Op) → P o → Refines hs P st (step hs o st)
  unfolding run
  Refines-one P st o p = record { ops = o ∷ []; allowed = (p, tt); same = refl }

  run-append : (os os' : List Op) (st : Store) → run hs (os ++ os') st ≡ run hs os' (run hs os st)
  unfolding run
  run-append [] os' st = refl
  run-append (o ∷ os) os' st = run-append os os' (step hs o st)

  pub Refines-trans :
      (P : Op → Type 0) (a b c : Store) → Refines hs P a b → Refines hs P b c → Refines hs P a c
  Refines-trans P a b c x y = record {
    ops = x.ops ++ y.ops;
    allowed = All-append P x.ops y.ops x.allowed y.allowed;
    same = y.same ∙ ap (run hs y.ops) x.same ∙ sym (run-append x.ops y.ops a);
  }

  authenticate-cases :
      (f : Bool) (now : ℕ) (token : Str) (st : Store)
      → ((e : Error) × ((authenticate hs f now token st).1 ≡ err e))
        ⊎ ((se : Session) × (u : User) × (lookup (hs.sha256_hex token) st.mem.sessions ≡ some se)
            × (lookup se.user st.mem.users ≡ some u)
            × (u.disabled ≡ false)
            × ((authenticate hs f now token st).1 ≡ ok (seen_at now se, u)))
  unfolding authenticate
  authenticate-cases f now token st =
      elim (Option-cases (lookup (hs.sha256_hex token) st.mem.sessions)) [
        | inl e ↦ inl (Store.bad_login, ground arith)
        | inr (se, e) ↦ elim (Option-cases (lookup se.user st.mem.users)) [
          | inl e' ↦ inl (Store.bad_login, ground arith)
          | inr (u, e') ↦ elim (Bool-cases u.disabled) [
            | inl d ↦ inl (Store.disabled_account, ground arith)
            | inr d ↦ inr (se, u, e, e', d, ground arith)
          ]
        ]
      ]

  -- `auth`: refused, or the handler runs for the session's user, who is not disabled.
  pub auth-cases {ℓ} :
      (h : Session → User → Server → Outcome) (o : Outside) (token : Str) (s : Server)
      (P : Outcome → Type ℓ)
      → (let s' = with_store (authenticate hs o.touch_fails o.now token s.store).0 s in
          (e : Error) → P (refuse 401 (store_fault e) s'))
      → (let s' = with_store (authenticate hs o.touch_fails o.now token s.store).0 s in
          (se : Session) (u : User)
          → lookup (hs.sha256_hex token) s.store.mem.sessions ≡ some se
          → lookup se.user s.store.mem.users ≡ some u
          → u.disabled ≡ false
          → P (h (seen_at o.now se) u s'))
      → P (auth hs h o token s)
  unfolding auth
  auth-cases h o token s P refused accepted =
      elim (authenticate-cases o.touch_fails o.now token s.store) [
        | inl (e, r) ↦ rw (auth, r) (refused e)
        | inr (se, u, e, e', d, r) ↦ rw (auth, r) (accepted se u e e' d)
      ]

  authenticate-ok :
      (f : Bool) (now : ℕ) (token : Str) (st : Store) (se : Session) (u : User)
      → lookup (hs.sha256_hex token) st.mem.sessions ≡ some se
      → lookup se.user st.mem.users ≡ some u
      → u.disabled ≡ false
      → (authenticate hs f now token st).1 ≡ ok (seen_at now se, u)
  unfolding authenticate
  authenticate-ok f now token st se u e e' d = ground arith

  pub auth-accepted :
      (h : Session → User → Server → Outcome) (o : Outside) (token : Str) (s : Server)
      (se : Session) (u : User)
      → lookup (hs.sha256_hex token) s.store.mem.sessions ≡ some se
      → lookup se.user s.store.mem.users ≡ some u
      → u.disabled ≡ false
      → auth hs h o token s
        ≡ h
            (seen_at o.now se)
            u
            (with_store (authenticate hs o.touch_fails o.now token s.store).0 s)
  unfolding auth
  auth-accepted h o token s se u e e' d =
      rw (auth, authenticate-ok o.touch_fails o.now token s.store se u e e' d) refl

  -- `admin`: also refused if the user is not an admin.
  pub admin-cases {ℓ} :
      (h : User → Server → Outcome) (o : Outside) (token : Str) (s : Server) (P : Outcome → Type ℓ)
      → (let s' = with_store (authenticate hs o.touch_fails o.now token s.store).0 s in
          (e : Error) → P (refuse 401 (store_fault e) s'))
      → (let s' = with_store (authenticate hs o.touch_fails o.now token s.store).0 s in
          P (refuse 403 admins_only s'))
      → (let s' = with_store (authenticate hs o.touch_fails o.now token s.store).0 s in
          (se : Session) (u : User)
          → lookup (hs.sha256_hex token) s.store.mem.sessions ≡ some se
          → lookup se.user s.store.mem.users ≡ some u
          → u.disabled ≡ false
          → u.admin ≡ true
          → P (h u s'))
      → P (admin hs h o token s)
  unfolding admin
  admin-cases h o token s P refused forbidden accepted =
      auth-cases (if_admin hs h) o token s P refused (λ se u e e' d.
        let s' = with_store (authenticate hs o.touch_fails o.now token s.store).0 s in
        let then_go = λ (b : Bool). P (if not b then refuse 403 admins_only s' else h u s') in
        elim (Bool-cases u.admin) [
          | inl a ↦ subst then_go (sym a) (accepted se u e e' d a)
          | inr a ↦ subst then_go (sym a) forbidden
        ])

  -- What a handler, of a user or of none in particular, makes of the store.
  abbrev pub Goes : (Op → Type 0) → Store → Outcome → Type 0
  Goes P st x = Refines hs P st x.server.store

  issue-Goes :
      (o : Outside) (u : User) (c : Credentials) (s : Server)
      → Goes IsQuiet s.store (issue hs o u c s)
  unfolding issue step
  issue-Goes o u c s =
      let op =
        opens_session o.fails_again o.now o.token u.name c.device_id c.device_name c.device_kind in
      let one = Refines-one IsQuiet s.store op (λ me. refl) in
      elim (Option-cases (
        fault_of
          (new_session hs o.fails_again o.now o.token u.name c.device_id c.device_name c.device_kind
            s.store).1)) [ inl e ↦ rw (issue, e) one | inr (x, e) ↦ rw (issue, e) one ]

  registered-Goes :
      (ip : Str) (o : Outside) (c : Credentials) (res : Result User) (s : Server)
      → Goes IsQuiet s.store (registered hs ip o c res s)
  unfolding registered
  registered-Goes ip o c (ok u) s = issue-Goes o u c s
  registered-Goes ip o c (err Error.bad_invite) s = Refines-none IsQuiet s.store
  registered-Goes ip o c (err e) s = Refines-none IsQuiet s.store
  registered-Goes ip o c (unsaved u) s = Refines-none IsQuiet s.store

  register_from-Goes :
      (ip : Str) (home : Bool) (o : Outside) (c : Credentials) (k : Str) (s : Server)
      → Goes IsQuiet s.store (register_from hs ip home o c k s)
  unfolding register_from step
  register_from-Goes ip home o c k s =
      let need = not (s.signup == signup_open) in
      let l = (blocked o.now ip s.limiter).0 in
      let made = Store.register hs o.fails o.now c.username k c.invite need s.store in
      elim (Bool-cases (blocked o.now ip s.limiter).1) [
        | inl e ↦ rw (register_from, e) (Refines-none IsQuiet s.store)
        | inr e ↦ elim (Bool-cases (not (Store.has_users s.store) && not home)) [
          | inl f ↦ rw (register_from, e, f) (Refines-none IsQuiet s.store)
          | inr f ↦
              rw (register_from, e, f)
                (Refines-trans IsQuiet s.store made.0 _
                  (Refines-one IsQuiet s.store (registers o.fails o.now c.username k c.invite need)
                    (λ me. refl))
                  (registered-Goes ip o c made.1 (with_store made.0 (with_limiter l s))))
        ]
      ]

  pub register-Goes :
      (net : NetLibrary) (r : Request) (c : Option Credentials) (o : Outside) (s : Server)
      → Goes IsQuiet s.store (register hs net r c o s)
  unfolding register
  register-Goes net r none o s = Refines-none IsQuiet s.store
  register-Goes net r (some c) o s =
      elim (key_of net c)
        as (λ k. Goes IsQuiet s.store (elim k as (λ _. Outcome) [
          | inl e ↦ refuse 400 e s
          | inr k ↦ register_from hs (client_ip net r) (from_private net r) o c k s
        ])) [
          | inl e ↦ Refines-none IsQuiet s.store
          | inr k ↦ register_from-Goes (client_ip net r) (from_private net r) o c k s
        ]

  login_as-Goes :
      (ip user : Str) (o : Outside) (c : Credentials) (k : Str) (s : Server)
      → Goes IsQuiet s.store (login_as hs ip user o c k s)
  unfolding login_as
  login_as-Goes ip user o c k s =
      elim (check_login hs user k s.store)
        as (λ x. Goes IsQuiet s.store (elim x as (λ _. Outcome) [
          | ok u ↦ issue hs o u c s
          | err e ↦
              refuse 401 (store_fault e)
                (with_limiter (fail o.now (user_key hs user) (fail o.now ip s.limiter)) s)
          | unsaved _ ↦
              refuse 401 (store_fault Error.not_saved)
                (with_limiter (fail o.now (user_key hs user) (fail o.now ip s.limiter)) s)
        ])) [
          | ok u ↦ issue-Goes o u c s
          | err e ↦ Refines-none IsQuiet s.store
          | unsaved u ↦ Refines-none IsQuiet s.store
        ]

  login_from-Goes :
      (ip : Str) (o : Outside) (c : Credentials) (k : Str) (s : Server)
      → Goes IsQuiet s.store (login_from hs ip o c k s)
  unfolding login_from
  login_from-Goes ip o c k s =
      let user = normalize_username c.username in
      let l = blocked o.now ip s.limiter in
      let l' = blocked o.now (user_key hs user) l.0 in
      elim (Bool-cases l.1) [
        | inl e ↦ rw (login_from, e) (Refines-none IsQuiet s.store)
        | inr e ↦ elim (Bool-cases l'.1) [
          | inl f ↦ rw (login_from, e, f) (Refines-none IsQuiet s.store)
          | inr f ↦ rw (login_from, e, f) (login_as-Goes ip user o c k (with_limiter l'.0 s))
        ]
      ]

  pub login-Goes :
      (net : NetLibrary) (r : Request) (c : Option Credentials) (o : Outside) (s : Server)
      → Goes IsQuiet s.store (login hs net r c o s)
  unfolding login
  login-Goes net r none o s = Refines-none IsQuiet s.store
  login-Goes net r (some c) o s =
      elim (key_of net c)
        as (λ k. Goes IsQuiet s.store (elim k as (λ _. Outcome) [
          | inl e ↦ refuse 400 e s
          | inr k ↦ login_from hs (client_ip net r) o c k s
        ])) [
          | inl e ↦ Refines-none IsQuiet s.store
          | inr k ↦ login_from-Goes (client_ip net r) o c k s
        ]

  pub sign_out-Goes :
      (o : Outside) (token : Str) (se : Session) (u : User) (s : Server)
      → Goes IsQuiet s.store (sign_out hs o token se u s)
  unfolding sign_out step
  sign_out-Goes o token se u s = Refines-one IsQuiet s.store (logs_out o.fails token) (λ me. refl)

  pub join-Goes :
      (o : Outside) (token : Str) (se : Session) (u : User) (s : Server)
      → Goes IsQuiet s.store (join hs o token se u s)
  unfolding join
  join-Goes o token se u s = elim (Bool-cases o.upgrade_fails) [
    | inl e ↦ rw (join, e) (Refines-none IsQuiet s.store)
    | inr e ↦ rw (join, e) (Refines-none IsQuiet s.store)
  ]
