-- ===== src/Server/Api/Rights.antt =====
-- What the handlers of admins make of the store, and every route that changes no rights.
use void_bridge.Base.{
  ◌≡◌, refl, Bool, true, false, not, ◌||◌, List, [], ◌∷◌, Option, none, some, Str, arith, inl, inr,
  Option-cases, Bool-cases, str_eq, ◌==◌, All, codes,
}
use void_bridge.Protocol.Crypto.{Hashes}
use void_bridge.Server.Store.{User, Session, Store, Error, ok, err, unsaved, authenticate, seen_at}
use void_bridge.Server.Store.Admin
use void_bridge.Server.Store.Ops.{
  Op, authenticates, revokes_device, disables, makes_admin, deletes_user, creates_invite,
  lists_invites, revokes_invite, step,
}
use void_bridge.Server.Store.Boss.{harms}
use void_bridge.Server.Api.{
  NetLibrary, Server, Patch, InviteRequest, store_fault, Outcome, Outside, Request, refuse,
  with_store, fault_of, auth, admin, answer, local_only, bearer, Reply, is_loopback, client_ip,
}
use void_bridge.Server.Api.Account.{info, remove_device, me, sign_out, join, sync, sync_token}
use void_bridge.Server.Api.Console.{
  list_users, patch_admin, patch_known, patch_user, delete_user, list_invites, create_invite,
  days_long, revoke_invite, harms_self, home,
}
use void_bridge.Server.Api.Mux.{Route, dispatch}
use void_bridge.Server.Api.Steps.{
  Refines, IsQuiet, Refines-none, Refines-one, Refines-trans, Goes, register-Goes, login-Goes,
  sign_out-Goes, join-Goes, auth-cases, admin-cases,
}

-- An operation that harms no account, or not this one.
abbrev pub IsSafe : Str → Op → Type 0
IsSafe name o = harms name o ≡ false

pub weaken :
    (hs : Hashes) (P Q : Op → Type 0) (st st' : Store)
    → ((o : Op) → P o → Q o)
    → Refines hs P st st'
    → Refines hs Q st st'
weaken hs P Q st st' f x = record { ops = x.ops; allowed = go x.ops x.allowed; same = x.same }
  where
    go : (os : List Op) → All P os → All Q os
    go [] h = tt
    go (o ∷ os) h = (f o h.0, go os h.1)

disables-IsSafe :
    (f : Bool) (name : Str) (u : User) (d a : Option Bool) (b : Bool)
    → d ≡ some b
    → harms_self name u (record { disabled = d; admin = a }) ≡ false
    → IsSafe u.name (disables f name b)
disables-IsSafe f name u none a b e h = absurd (ground arith)
disables-IsSafe f name u (some c) a true e h = ground arith
disables-IsSafe f name u (some c) a false e h = refl

makes_admin-IsSafe :
    (f : Bool) (name : Str) (u : User) (d a : Option Bool) (b : Bool)
    → a ≡ some b
    → harms_self name u (record { disabled = d; admin = a }) ≡ false
    → IsSafe u.name (makes_admin f name b)
makes_admin-IsSafe f name u d none b e h = absurd (ground arith)
makes_admin-IsSafe f name u d (some c) true e h = refl
makes_admin-IsSafe f name u d (some c) false e h = ground arith

module _ (hs : Hashes) where
  remove_device-Goes :
      (o : Outside) (id : Str) (u : User) (s : Server)
      → Goes hs IsQuiet s.store (remove_device o id u s)
  unfolding remove_device step
  remove_device-Goes o id u s =
      let one = Refines-one hs IsQuiet s.store (revokes_device o.fails u.name id) (λ me. refl) in
      elim (Option-cases (fault_of (Admin.revoke_device o.fails u.name id s.store).1)) [
        | inl e ↦ rw (remove_device, e) one
        | inr (x, e) ↦ rw (remove_device, e) one
      ]

  pub delete_user-Goes :
      (o : Outside) (name : Str) (u : User) (s : Server)
      → Goes hs (IsSafe u.name) s.store (delete_user o name u s)
  unfolding delete_user step
  delete_user-Goes o name u s = elim (Bool-cases (name == u.name)) [
    | inl e ↦ rw (delete_user, e) (Refines-none hs (IsSafe u.name) s.store)
    | inr e ↦
        let one = Refines-one hs (IsSafe u.name) s.store (deletes_user o.fails name) e in
        elim (Option-cases (fault_of (Admin.delete_user o.fails name s.store).1)) [
          | inl f ↦ rw (delete_user, e, f) one
          | inr (x, f) ↦ rw (delete_user, e, f) one
        ]
  ]

  revoke_invite-Goes :
      (o : Outside) (code : Str) (u : User) (s : Server)
      → Goes hs IsQuiet s.store (revoke_invite o code u s)
  unfolding revoke_invite step
  revoke_invite-Goes o code u s =
      let one = Refines-one hs IsQuiet s.store (revokes_invite o.fails code) (λ me. refl) in
      elim (Option-cases (fault_of (Admin.revoke_invite o.fails code s.store).1)) [
        | inl e ↦ rw (revoke_invite, e) one
        | inr (x, e) ↦ rw (revoke_invite, e) one
      ]

  list_invites-Goes :
      (o : Outside) (u : User) (s : Server) → Goes hs IsQuiet s.store (list_invites o u s)
  unfolding list_invites step
  list_invites-Goes o u s = Refines-one hs IsQuiet s.store (lists_invites o.now) (λ me. refl)

  create_invite-Goes :
      (o : Outside) (q : Option InviteRequest) (u : User) (s : Server)
      → Goes hs IsQuiet s.store (create_invite o q u s)
  unfolding create_invite step
  create_invite-Goes o none u s = Refines-none hs IsQuiet s.store
  create_invite-Goes o (some q) u s =
      let call =
        Admin.create_invite o.fails o.now o.code u.name q.uses (days_long q.days) q.note s.store in
      let one =
        Refines-one hs IsQuiet s.store
          (creates_invite o.fails o.now o.code u.name q.uses (days_long q.days) q.note)
          (λ me. refl) in
      elim call.1
        as (λ x. Goes hs IsQuiet s.store (elim x as (λ _. Outcome) [
          | ok i ↦ answer (Reply.makes_invite i) (with_store call.0 s)
          | err e ↦ refuse 500 (store_fault e) (with_store call.0 s)
          | unsaved i ↦ refuse 500 (store_fault Error.not_saved) (with_store call.0 s)
        ])) [ ok i ↦ one | err e ↦ one | unsaved i ↦ one ]

  patch_admin-Goes :
      (o : Outside) (name me : Str) (p : Option Bool) (st : Store) (x : Outcome)
      → ((b : Bool) → p ≡ some b → IsSafe me (makes_admin o.fails_again name b))
      → Goes hs (IsSafe me) st x
      → Goes hs (IsSafe me) st (patch_admin o name p x)
  unfolding patch_admin step
  patch_admin-Goes o name me none st x h g = g
  patch_admin-Goes o name me (some b) st x h g =
      let one =
        Refines-trans hs (IsSafe me) st x.server.store _ g (
          Refines-one hs (IsSafe me) x.server.store (makes_admin o.fails_again name b)
            (h b refl)) in
      elim (Option-cases (fault_of (Admin.set_admin o.fails_again name b x.server.store).1)) [
        | inl e ↦ rw (patch_admin, e) one
        | inr (y, e) ↦ rw (patch_admin, e) one
      ]

  patch_known-Goes :
      (o : Outside) (name me : Str) (d a : Option Bool) (s : Server)
      → ((b : Bool) → d ≡ some b → IsSafe me (disables o.fails name b))
      → ((b : Bool) → a ≡ some b → IsSafe me (makes_admin o.fails_again name b))
      → Goes hs (IsSafe me) s.store (patch_known o name (record { disabled = d; admin = a }) s)
  unfolding patch_known step
  patch_known-Goes o name me none a s h k =
      patch_admin-Goes o name me a s.store (answer Reply.done s) k
        (Refines-none hs (IsSafe me) s.store)
  patch_known-Goes o name me (some b) a s h k =
      let one = Refines-one hs (IsSafe me) s.store (disables o.fails name b) (h b refl) in
      elim (Option-cases (fault_of (Admin.set_disabled o.fails name b s.store).1)) [
        | inl e ↦ rw (patch_known, e) (patch_admin-Goes o name me a s.store _ k one)
        | inr (y, e) ↦ rw (patch_known, e) one
      ]

  pub patch_user-Goes :
      (o : Outside) (name : Str) (p : Option Patch) (u : User) (s : Server)
      → Goes hs (IsSafe u.name) s.store (patch_user o name p u s)
  unfolding patch_user
  patch_user-Goes o name none u s = Refines-none hs (IsSafe u.name) s.store
  patch_user-Goes o name (some p) u s = elim (Bool-cases (harms_self name u p)) [
    | inl e ↦ rw (patch_user, e) (Refines-none hs (IsSafe u.name) s.store)
    | inr e ↦
        rw (patch_user, e)
          (patch_known-Goes o name u.name p.disabled p.admin s
            (λ b h. disables-IsSafe o.fails name u p.disabled p.admin b h e)
            (λ b h. makes_admin-IsSafe o.fails_again name u p.disabled p.admin b h e))
  ]

  -- A handler behind `auth` or `admin`.
  pub auth-Goes :
      (P : Op → Type 0) (h : Session → User → Server → Outcome) (o : Outside) (token : Str)
      (s : Server)
      → P (authenticates o.touch_fails o.now token)
      → ((se : Session) (u : User) (s' : Server) → Goes hs P s'.store (h se u s'))
      → Goes hs P s.store (auth hs h o token s)
  unfolding step
  auth-Goes P h o token s p g =
      let op = authenticates o.touch_fails o.now token in
      let s' = with_store (authenticate hs o.touch_fails o.now token s.store).0 s in
      auth-cases hs h o token s (Goes hs P s.store) (λ e. Refines-one hs P s.store op p)
        (λ se u _ _ _.
          Refines-trans hs P s.store s'.store _ (Refines-one hs P s.store op p)
            (g (seen_at o.now se) u s'))

  pub admin-Goes :
      (P : Op → Type 0) (h : User → Server → Outcome) (o : Outside) (token : Str) (s : Server)
      → P (authenticates o.touch_fails o.now token)
      → ((u : User) (s' : Server) → Goes hs P s'.store (h u s'))
      → Goes hs P s.store (admin hs h o token s)
  unfolding step
  admin-Goes P h o token s p g =
      let op = authenticates o.touch_fails o.now token in
      let s' = with_store (authenticate hs o.touch_fails o.now token s.store).0 s in
      let one = Refines-one hs P s.store op p in
      admin-cases hs h o token s (Goes hs P s.store) (λ e. one) one
        (λ se u _ _ _ _. Refines-trans hs P s.store s'.store _ one (g u s'))

  pub local_only-Goes :
      (net : NetLibrary) (P : Op → Type 0) (h : User → Server → Outcome) (r : Request) (s : Server)
      → ((u : User) → Goes hs P s.store (h u s))
      → Goes hs P s.store (local_only net h r s)
  unfolding local_only
  local_only-Goes net P h r s g =
      elim (Bool-cases (s.no_console || not (is_loopback (net.parse_ip (client_ip net r))))) [
        | inl e ↦ rw (local_only, e) (Refines-none hs P s.store)
        | inr e ↦ rw (local_only, e) (g _)
      ]

  -- The routes that change the rights of accounts or delete one.
  abbrev pub changes_rights : Route → Bool
  changes_rights (Route.admin_patch name p) = true
  changes_rights (Route.admin_delete name) = true
  changes_rights (Route.local_patch name p) = true
  changes_rights _ = false

  module _ (net : NetLibrary) where
    pub dispatch-Goes :
        (y : Route) (r : Request) (o : Outside) (s : Server)
        → changes_rights y ≡ false
        → Goes hs IsQuiet s.store (dispatch hs net y r o s)
    unfolding dispatch sync me info home list_users
    dispatch-Goes Route.get_info r o s h = Refines-none hs IsQuiet s.store
    dispatch-Goes (Route.post_register c) r o s h = register-Goes hs net r c o s
    dispatch-Goes (Route.post_login c) r o s h = login-Goes hs net r c o s
    dispatch-Goes Route.post_logout r o s h =
        auth-Goes IsQuiet (sign_out hs o (bearer r)) o (bearer r) s (λ m. refl)
          (sign_out-Goes hs o (bearer r))
    dispatch-Goes Route.get_me r o s h =
        auth-Goes IsQuiet me o (bearer r) s (λ m. refl)
          (λ se u s'. Refines-none hs IsQuiet s'.store)
    dispatch-Goes (Route.delete_device id) r o s h =
        auth-Goes IsQuiet (λ se. remove_device o id) o (bearer r) s (λ m. refl)
          (λ se u s'. remove_device-Goes o id u s')
    dispatch-Goes Route.get_sync r o s h =
        auth-Goes IsQuiet (join hs o (sync_token hs r)) o (sync_token hs r) s (λ m. refl)
          (join-Goes hs o (sync_token hs r))
    dispatch-Goes Route.admin_users r o s h =
        admin-Goes IsQuiet list_users o (bearer r) s (λ m. refl)
          (λ u s'. Refines-none hs IsQuiet s'.store)
    dispatch-Goes (Route.admin_patch name p) r o s h = absurd (ground arith)
    dispatch-Goes (Route.admin_delete name) r o s h = absurd (ground arith)
    dispatch-Goes Route.admin_invites r o s h =
        admin-Goes IsQuiet (list_invites o) o (bearer r) s (λ m. refl) (list_invites-Goes o)
    dispatch-Goes (Route.admin_invite q) r o s h =
        admin-Goes IsQuiet (create_invite o q) o (bearer r) s (λ m. refl) (create_invite-Goes o q)
    dispatch-Goes (Route.admin_revoke code) r o s h =
        admin-Goes IsQuiet (revoke_invite o code) o (bearer r) s (λ m. refl)
          (revoke_invite-Goes o code)
    dispatch-Goes (Route.local_invite q) r o s h =
        local_only-Goes net IsQuiet (create_invite o q) r s (λ u. create_invite-Goes o q u s)
    dispatch-Goes Route.local_users r o s h =
        local_only-Goes net IsQuiet list_users r s (λ u. Refines-none hs IsQuiet s.store)
    dispatch-Goes (Route.local_patch name p) r o s h = absurd (ground arith)
    dispatch-Goes (Route.get_page path) r o s h = elim (Bool-cases (path == codes "/")) [
      | inl e ↦ rw e (Refines-none hs IsQuiet s.store)
      | inr e ↦ rw e (Refines-none hs IsQuiet s.store)
    ]
