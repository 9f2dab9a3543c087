-- ===== src/Server/Api/Admins.antt =====
-- Whole requests: the store's operations behind them, and the last admin.
use void_bridge.Base.{
  ◌≡◌, refl, sym, subst, Bool, true, false, not, ◌&&◌, List, [], ◌∷◌, some, Str, arith, inl, inr,
  Bool-cases, str_eq, All,
}
use void_bridge.Base.Dict.{lookup}
use void_bridge.Protocol.Crypto.{Hashes}
use void_bridge.Server.Store.{User, Store, authenticate}
use void_bridge.Server.Store.Sound.{IsSound}
use void_bridge.Server.Store.Ops.{Op, authenticates, step, run, run-IsSound}
use void_bridge.Server.Store.Boss.{IsBoss, run-IsBoss}
use void_bridge.Server.Api.{
  NetLibrary, Server, encrypted_only, Outcome, Outside, Request, refuse, with_store, from_private,
  admin, bearer,
}
use void_bridge.Server.Api.Console.{patch_user, delete_user}
use void_bridge.Server.Api.Mux.{Route, dispatch, serve}
use void_bridge.Server.Api.Steps.{Refines, IsQuiet, Refines-one, Goes, admin-cases}
use void_bridge.Server.Api.Rights.{
  IsSafe, weaken, dispatch-Goes, admin-Goes, local_only-Goes, patch_user-Goes, delete_user-Goes,
}

-- Some account is an enabled admin.
pub record HasAdmin (users : List (Str × User)) : Type 0 where
  pub name : Str
  pub boss : IsBoss name users

-- Does the request change an account from the console?
abbrev pub patches_locally : Route → Bool
patches_locally (Route.local_patch name p) = true
patches_locally _ = false

-- One request with what the outside answers.
pub record Exchange : Type 0 where
  pub route : Route
  pub request : Request
  pub outside : Outside

module _ (hs : Hashes) where
  Goes-IsBoss :
      (me : Str) (st : Store) (x : Outcome)
      → Goes hs (IsSafe me) st x
      → IsBoss me st.mem.users
      → IsBoss me x.server.store.mem.users
  Goes-IsBoss me st x g b =
      subst (λ z. IsBoss me z.mem.users) (sym g.same) (run-IsBoss hs me g.ops st g.allowed b)

  quiet-HasAdmin :
      (st : Store) (x : Outcome)
      → Goes hs IsQuiet st x
      → HasAdmin st.mem.users
      → HasAdmin x.server.store.mem.users
  quiet-HasAdmin st x g b = record {
    name = b.name;
    boss =
        Goes-IsBoss b.name st x
          (weaken hs IsQuiet (IsSafe b.name) st x.server.store (λ o q. q b.name) g) b.boss;
  }

  -- A change that is safe for whoever makes it keeps that admin.
  admin-HasAdmin :
      (h : User → Server → Outcome) (o : Outside) (token : Str) (s : Server)
      → IsSound s.store.mem
      → HasAdmin s.store.mem.users
      → ((u : User) (s' : Server) → Goes hs (IsSafe u.name) s'.store (h u s'))
      → HasAdmin (admin hs h o token s).server.store.mem.users
  unfolding step
  admin-HasAdmin h o token s v b g =
      let op = authenticates o.touch_fails o.now token in
      let s' = with_store (authenticate hs o.touch_fails o.now token s.store).0 s in
      let one : Refines hs IsQuiet s.store s'.store =
        Refines-one hs IsQuiet s.store op (λ m. refl) in
      let kept = quiet-HasAdmin s.store (refuse 0 encrypted_only s') one b in
      admin-cases hs h o token s (λ x. HasAdmin x.server.store.mem.users) (λ e. kept) kept
        (λ se u e e' d a.
          let named = (v.users_sound.named se.user u e').0 in
          let mine : IsBoss u.name s.store.mem.users = record {
            account = u;
            known = subst (λ n. lookup n s.store.mem.users ≡ some u) (sym named) e';
            is_admin = a;
            is_enabled = d;
          } in
          let then' =
            Goes-IsBoss u.name s.store (refuse 0 encrypted_only s')
              (weaken hs IsQuiet (IsSafe u.name) s.store s'.store (λ x q. q u.name) one) mine in
          record { name = u.name; boss = Goes-IsBoss u.name s'.store (h u s') (g u s') then' })

  module _ (net : NetLibrary) where
    dispatch-HasAdmin :
        (y : Route) (r : Request) (o : Outside) (s : Server)
        → patches_locally y ≡ false
        → IsSound s.store.mem
        → HasAdmin s.store.mem.users
        → HasAdmin (dispatch hs net y r o s).server.store.mem.users
    unfolding dispatch
    dispatch-HasAdmin (Route.admin_patch name p) r o s h v b =
        admin-HasAdmin (patch_user o name p) o (bearer r) s v b (patch_user-Goes hs o name p)
    dispatch-HasAdmin (Route.admin_delete name) r o s h v b =
        admin-HasAdmin (delete_user o name) o (bearer r) s v b (delete_user-Goes hs o name)
    dispatch-HasAdmin (Route.local_patch name p) r o s h v b = absurd (ground arith)
    dispatch-HasAdmin y r o s h v b =
        quiet-HasAdmin s.store (dispatch hs net y r o s) (dispatch-Goes hs net y r o s refl) b

    AnyOp : Op → Type 0
    AnyOp o = Unit {0}

    dispatch-Refines :
        (y : Route) (r : Request) (o : Outside) (s : Server)
        → Goes hs AnyOp s.store (dispatch hs net y r o s)
    unfolding dispatch AnyOp
    dispatch-Refines (Route.admin_patch name p) r o s =
        admin-Goes hs AnyOp (patch_user o name p) o (bearer r) s tt (λ u s'.
          weaken hs (IsSafe u.name) AnyOp s'.store (patch_user o name p u s').server.store
            (λ _ _. tt) (patch_user-Goes hs o name p u s'))
    dispatch-Refines (Route.admin_delete name) r o s =
        admin-Goes hs AnyOp (delete_user o name) o (bearer r) s tt (λ u s'.
          weaken hs (IsSafe u.name) AnyOp s'.store (delete_user o name u s').server.store
            (λ _ _. tt) (delete_user-Goes hs o name u s'))
    dispatch-Refines (Route.local_patch name p) r o s =
        local_only-Goes hs net AnyOp (patch_user o name p) r s (λ u.
          weaken hs (IsSafe u.name) AnyOp s.store (patch_user o name p u s).server.store (λ _ _. tt)
            (patch_user-Goes hs o name p u s))
    dispatch-Refines y r o s =
        weaken hs IsQuiet AnyOp s.store (dispatch hs net y r o s).server.store (λ _ _. tt)
          (dispatch-Goes hs net y r o s refl)

    -- Every request, whatever it asks for and however it is answered, changes the store as some
    -- sequence of the store's own operations does.
    pub serve-run :
        (y : Route) (r : Request) (o : Outside) (s : Server)
        → (os : List Op) × ((serve hs net y r o s).server.store ≡ run hs os s.store)
    unfolding serve run
    serve-run y r o s = elim (Bool-cases (not r.tls && not (from_private net r))) [
      | inl e ↦ rw (serve, e) ([], refl)
      | inr e ↦ rw (serve, e) (let d = dispatch-Refines y r o s in (d.ops, d.same))
    ]

    serve-HasAdmin :
        (y : Route) (r : Request) (o : Outside) (s : Server)
        → patches_locally y ≡ false
        → IsSound s.store.mem
        → HasAdmin s.store.mem.users
        → HasAdmin (serve hs net y r o s).server.store.mem.users
    unfolding serve
    serve-HasAdmin y r o s h v b = elim (Bool-cases (not r.tls && not (from_private net r))) [
      | inl e ↦ rw (serve, e) b
      | inr e ↦ rw (serve, e) (dispatch-HasAdmin y r o s h v b)
    ]

    serve-IsSound :
        (y : Route) (r : Request) (o : Outside) (s : Server)
        → IsSound s.store.mem
        → IsSound (serve hs net y r o s).server.store.mem
    serve-IsSound y r o s v =
        let (os, e) = serve-run y r o s in
        subst (λ z. IsSound z.mem) (sym e) (run-IsSound hs os s.store v)

    -- Requests, one after another.
    unfoldable pub serves : List Exchange → Server → Server
    serves [] s = s
    serves (x ∷ xs) s = serves xs (serve hs net x.route x.request x.outside s).server

    -- Of requests that are handled one at a time, each from its authentication to its answer before
    -- the next begins, by whomever and in any order: if some account is an enabled admin in a
    -- well-formed store, then some account is one after them, as long as none of them is a change
    -- of an account from the console. Nothing is said of requests that overlap.
    pub serves-HasAdmin :
        (xs : List Exchange) (s : Server)
        → All (λ x. patches_locally x.route ≡ false) xs
        → IsSound s.store.mem
        → HasAdmin s.store.mem.users
        → HasAdmin (serves xs s).store.mem.users
    unfolding serves
    serves-HasAdmin [] s h v b = b
    serves-HasAdmin (x ∷ xs) s h v b =
        let s' = (serve hs net x.route x.request x.outside s).server in
        serves-HasAdmin xs s' h.1 (serve-IsSound x.route x.request x.outside s v)
          (serve-HasAdmin x.route x.request x.outside s h.0 v b)
