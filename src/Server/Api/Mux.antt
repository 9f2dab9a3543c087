-- ===== src/Server/Api/Mux.antt =====
-- internal/server/server.go: the routes of `New`, and `ServeHTTP`. A request is one step here, from
-- its guards to its answer. Go takes and gives back the locks of the store, the limiter and the hub
-- for each operation, and runs requests at the same time; Overlap has two that overlap.
use void_bridge.Base.{not, ◌&&◌, Option, Str, if◌then◌else◌}
use void_bridge.Protocol.Crypto.{Hashes}
use void_bridge.Server.Api.{
  NetLibrary, Server, Credentials, Patch, InviteRequest, encrypted_only, Outcome, Outside, Request,
  refuse, from_private, local_only, auth, admin, bearer,
}
use void_bridge.Server.Api.Account.{info, register, login, sign_out, me, remove_device, sync}
use void_bridge.Server.Api.Console.{
  list_users, patch_user, delete_user, list_invites, create_invite, revoke_invite, home,
}

-- A route, with the values in its path and its body.
pub data Route : Type 0 where
  get_info post_logout get_me get_sync admin_users admin_invites local_users : Route
  post_register post_login : Option Credentials → Route
  delete_device admin_delete admin_revoke get_page : Str → Route
  admin_patch local_patch : Str → Option Patch → Route
  admin_invite local_invite : Option InviteRequest → Route

module _ (hs : Hashes) (net : NetLibrary) where
  unfoldable pub dispatch : Route → Request → Outside → Server → Outcome
  dispatch Route.get_info r o s = info s
  dispatch (Route.post_register c) r o s = register hs net r c o s
  dispatch (Route.post_login c) r o s = login hs net r c o s
  dispatch Route.post_logout r o s = auth hs (sign_out hs o (bearer r)) o (bearer r) s
  dispatch Route.get_me r o s = auth hs me o (bearer r) s
  dispatch (Route.delete_device id) r o s = auth hs (λ se. remove_device o id) o (bearer r) s
  dispatch Route.get_sync r o s = sync hs r o s
  dispatch Route.admin_users r o s = admin hs list_users o (bearer r) s
  dispatch (Route.admin_patch name p) r o s = admin hs (patch_user o name p) o (bearer r) s
  dispatch (Route.admin_delete name) r o s = admin hs (delete_user o name) o (bearer r) s
  dispatch Route.admin_invites r o s = admin hs (list_invites o) o (bearer r) s
  dispatch (Route.admin_invite q) r o s = admin hs (create_invite o q) o (bearer r) s
  dispatch (Route.admin_revoke code) r o s = admin hs (revoke_invite o code) o (bearer r) s
  dispatch (Route.local_invite q) r o s = local_only net (create_invite o q) r s
  dispatch Route.local_users r o s = local_only net list_users r s
  dispatch (Route.local_patch name p) r o s = local_only net (patch_user o name p) r s
  dispatch (Route.get_page path) r o s = home path s

  -- `ServeHTTP`
  unfoldable pub serve : Route → Request → Outside → Server → Outcome
  unfolding dispatch
  serve y r o s =
      if not r.tls && not (from_private net r)
      then refuse 403 encrypted_only s
      else dispatch y r o s
