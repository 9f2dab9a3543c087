-- ===== src/Server/Api/Claim.antt =====
-- A server without accounts cannot be claimed from the internet.
use void_bridge.Base.{
  ◌≡◌, refl, ap, ◌∙◌, Bool, false, not, ◌&&◌, List, [], ◌∷◌, Option, none, some, Str, arith, inl,
  inr, Bool-cases, str_eq, ◌==◌, codes, All,
}
use void_bridge.Base.Dict.{lookup}
use void_bridge.Protocol.Crypto.{Hashes}
use void_bridge.Protocol.Code.{normalize_username}
use void_bridge.Server.Store.{User, Session, err, has_users, check_login, bad_login}
use void_bridge.Server.Store.Boss.{authenticate-rest}
use void_bridge.Server.Limiter.{blocked}
use void_bridge.Server.Api.{
  NetLibrary, Server, Credentials, Address, Outcome, Outside, Request, refuse, with_limiter,
  client_ip, from_private, private_ip, is_loopback, auth, admin, if_admin, local_only, bearer,
}
use void_bridge.Server.Api.Account.{
  info, me, sign_out, remove_device, register_from, register, login_as, login_from, login, key_of,
  join, sync, sync_token, user_key,
}
use void_bridge.Server.Api.Console.{
  home, list_users, patch_user, delete_user, list_invites, create_invite, revoke_invite,
}
use void_bridge.Server.Api.Mux.{Route, dispatch, serve}
use void_bridge.Server.Api.Steps.{auth-cases}
use void_bridge.Server.Api.Guards.{local_only-refuses}
use void_bridge.Server.Api.Admins.{Exchange, serves}

-- There is no account.
abbrev pub IsUnclaimed : Server → Type 0
IsUnclaimed s = s.store.mem.users ≡ []

module _ (hs : Hashes) where
  auth-IsUnclaimed :
      (h : Session → User → Server → Outcome) (o : Outside) (token : Str) (s : Server)
      → IsUnclaimed s
      → IsUnclaimed (auth hs h o token s).server
  unfolding lookup
  auth-IsUnclaimed h o token s v =
      auth-cases hs h o token s (λ x. IsUnclaimed x.server)
        (λ e. (authenticate-rest hs o.touch_fails o.now token s.store).0 ∙ v)
        (λ se u e e' d. absurd (ground (arith, ap (lookup se.user) v)))

  admin-IsUnclaimed :
      (h : User → Server → Outcome) (o : Outside) (token : Str) (s : Server)
      → IsUnclaimed s
      → IsUnclaimed (admin hs h o token s).server
  unfolding admin
  admin-IsUnclaimed h = auth-IsUnclaimed (if_admin hs h)

  register_from-IsUnclaimed :
      (ip : Str) (home : Bool) (o : Outside) (c : Credentials) (k : Str) (s : Server)
      → home ≡ false
      → IsUnclaimed s
      → IsUnclaimed (register_from hs ip home o c k s).server
  unfolding register_from has_users
  register_from-IsUnclaimed ip home o c k s away v =
      let none_yet : has_users s.store ≡ false = rw v refl in
      elim (Bool-cases (blocked o.now ip s.limiter).1) [
        | inl e ↦ rw (register_from, e) v
        | inr e ↦ rw (register_from, e, none_yet, away) v
      ]

  login_as-IsUnclaimed :
      (ip user : Str) (o : Outside) (c : Credentials) (k : Str) (s : Server)
      → IsUnclaimed s
      → IsUnclaimed (login_as hs ip user o c k s).server
  unfolding login_as check_login lookup
  login_as-IsUnclaimed ip user o c k s v =
      let no_user : check_login hs user k s.store ≡ err bad_login = rw (check_login, v) refl in
      rw (login_as, no_user) v

  login_from-IsUnclaimed :
      (ip : Str) (o : Outside) (c : Credentials) (k : Str) (s : Server)
      → IsUnclaimed s
      → IsUnclaimed (login_from hs ip o c k s).server
  unfolding login_from
  login_from-IsUnclaimed ip o c k s v =
      let user = normalize_username c.username in
      let l = blocked o.now ip s.limiter in
      let l' = blocked o.now (user_key hs user) l.0 in
      elim (Bool-cases l.1) [
        | inl e ↦ rw (login_from, e) v
        | inr e ↦ elim (Bool-cases l'.1) [
          | inl g ↦ rw (login_from, e, g) v
          | inr g ↦
              rw (login_from, e, g) (login_as-IsUnclaimed ip user o c k (with_limiter l'.0 s) v)
        ]
      ]

  module _ (net : NetLibrary) where
    register-IsUnclaimed :
        (r : Request) (c : Option Credentials) (o : Outside) (s : Server)
        → from_private net r ≡ false
        → IsUnclaimed s
        → IsUnclaimed (register hs net r c o s).server
    unfolding register
    register-IsUnclaimed r none o s away v = v
    register-IsUnclaimed r (some c) o s away v =
        elim (key_of net c)
          as (λ k.
            IsUnclaimed
              (elim k as (λ _. Outcome) [
                | inl e ↦ refuse 400 e s
                | inr k ↦ register_from hs (client_ip net r) (from_private net r) o c k s
              ]).server) [
                | inl e ↦ v
                | inr k ↦
                    register_from-IsUnclaimed (client_ip net r) (from_private net r) o c k s away v
              ]

    login-IsUnclaimed :
        (r : Request) (c : Option Credentials) (o : Outside) (s : Server)
        → IsUnclaimed s
        → IsUnclaimed (login hs net r c o s).server
    unfolding login
    login-IsUnclaimed r none o s v = v
    login-IsUnclaimed r (some c) o s v =
        elim (key_of net c)
          as (λ k.
            IsUnclaimed
              (elim k as (λ _. Outcome) [
                | inl e ↦ refuse 400 e s
                | inr k ↦ login_from hs (client_ip net r) o c k s
              ]).server) [ inl e ↦ v | inr k ↦ login_from-IsUnclaimed (client_ip net r) o c k s v ]

    private-loopback : (a : Option Address) → private_ip a ≡ false → is_loopback a ≡ false
    unfolding private_ip
    private-loopback none h = refl
    private-loopback (some a) h = ground arith

    local-IsUnclaimed :
        (h : User → Server → Outcome) (r : Request) (s : Server)
        → from_private net r ≡ false
        → IsUnclaimed s
        → IsUnclaimed (local_only net h r s).server
    local-IsUnclaimed h r s away v =
        let far = private-loopback (net.parse_ip (client_ip net r)) away in
        rw (local_only-refuses hs net h r s (ground arith)) v

    serve-IsUnclaimed :
        (y : Route) (r : Request) (o : Outside) (s : Server)
        → from_private net r ≡ false
        → IsUnclaimed s
        → IsUnclaimed (serve hs net y r o s).server
    unfolding serve
    serve-IsUnclaimed y r o s away v = elim (Bool-cases (not r.tls && not (from_private net r))) [
      | inl e ↦ rw (serve, e) v
      | inr e ↦ rw (serve, e) (go y)
    ]
      where
        go : (y : Route) → IsUnclaimed (dispatch hs net y r o s).server
        go Route.get_info = unfold dispatch info in v
        go (Route.post_register c) = unfold dispatch in register-IsUnclaimed r c o s away v
        go (Route.post_login c) = unfold dispatch in login-IsUnclaimed r c o s v
        go Route.post_logout =
            unfold dispatch in auth-IsUnclaimed (sign_out hs o (bearer r)) o (bearer r) s v
        go Route.get_me = unfold dispatch in auth-IsUnclaimed me o (bearer r) s v
        go (Route.delete_device id) =
            unfold dispatch in auth-IsUnclaimed (λ se. remove_device o id) o (bearer r) s v
        go Route.get_sync =
            unfold dispatch sync in
            auth-IsUnclaimed (join hs o (sync_token hs r)) o (sync_token hs r) s v
        go Route.admin_users = unfold dispatch in admin-IsUnclaimed list_users o (bearer r) s v
        go (Route.admin_patch name p) =
            unfold dispatch in admin-IsUnclaimed (patch_user o name p) o (bearer r) s v
        go (Route.admin_delete name) =
            unfold dispatch in admin-IsUnclaimed (delete_user o name) o (bearer r) s v
        go Route.admin_invites =
            unfold dispatch in admin-IsUnclaimed (list_invites o) o (bearer r) s v
        go (Route.admin_invite q) =
            unfold dispatch in admin-IsUnclaimed (create_invite o q) o (bearer r) s v
        go (Route.admin_revoke code) =
            unfold dispatch in admin-IsUnclaimed (revoke_invite o code) o (bearer r) s v
        go (Route.local_invite q) =
            unfold dispatch in local-IsUnclaimed (create_invite o q) r s away v
        go Route.local_users = unfold dispatch in local-IsUnclaimed list_users r s away v
        go (Route.local_patch name p) =
            unfold dispatch in local-IsUnclaimed (patch_user o name p) r s away v
        go (Route.get_page path) =
            unfold dispatch home in
            elim (Bool-cases (path == codes "/")) [ inl e ↦ rw e v | inr e ↦ rw e v ]

    -- A server without accounts still has none after any requests that all come from the internet,
    -- that is, from addresses that are neither of a home network nor of Tailscale nor of the
    -- machine itself; encrypted or not, and whether sign-up is open or not.
    pub serves-IsUnclaimed :
        (xs : List Exchange) (s : Server)
        → All (λ x. from_private net x.request ≡ false) xs
        → IsUnclaimed s
        → IsUnclaimed (serves hs net xs s)
    unfolding serves
    serves-IsUnclaimed [] s h v = v
    serves-IsUnclaimed (x ∷ xs) s h v =
        serves-IsUnclaimed xs (serve hs net x.route x.request x.outside s).server h.1
          (serve-IsUnclaimed x.route x.request x.outside s h.0 v)
