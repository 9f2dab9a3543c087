-- ===== src/Server/Api/Console.antt =====
-- internal/server/server.go: what admins do, and the console on the server's own machine.
use void_bridge.Base.{
  ◌*◌, ◌%◌, ◌^◌, Bool, true, false, not, ◌&&◌, ◌||◌, [], map, Option, none, some, Str, ℤ, signed64,
  bits64, str_eq, ◌==◌, if◌then◌else◌, length, ltb, codes,
}
use void_bridge.Server.Store.{User, Error, Result}
use void_bridge.Server.Store.Admin
use void_bridge.Server.Hub.{kick_all, online}
use void_bridge.Server.Api.{
  Server, Patch, InviteRequest, store_fault, unreadable_body, own_rights, own_account, no_page,
  Reply, done, shows_page, lists_users, lists_invites, makes_invite, Outcome, Outside, answer,
  refuse, with_store, fault_of,
}

unfoldable pub list_users : User → Server → Outcome
list_users me s =
    answer
      (lists_users (
        map
          (λ (u : User). record {
            user = u;
            devices = length (Admin.devices u.name s.store);
            online = ltb 0 (length (online u.name s.hub));
          })
          (Admin.users s.store)))
      s

abbrev pub is_some_and : Bool → Option Bool → Bool
is_some_and b none = false
is_some_and true (some c) = c
is_some_and false (some c) = not c

-- Would the change take the user's own rights?
abbrev pub harms_self : Str → User → Patch → Bool
harms_self name me p =
    (name == me.name) && (is_some_and true p.disabled || is_some_and false p.admin)

-- The second half of a change: the admin's rights.
unfoldable pub patch_admin : Outside → Str → Option Bool → Outcome → Outcome
patch_admin o name none x = x
patch_admin o name (some b) x =
    let (st, res) = Admin.set_admin o.fails_again name b x.server.store in
    elim (fault_of res) [
      | some e ↦ record x {
        server = with_store st x.server;
        reply = Reply.refuses 404 (store_fault e);
      }
      | none ↦ record x { server = with_store st x.server }
    ]

unfoldable pub patch_known : Outside → Str → Patch → Server → Outcome
unfolding patch_admin
patch_known o name p s = elim p.disabled [
  | none ↦ patch_admin o name p.admin (answer done s)
  | some b ↦
      let (st, res) = Admin.set_disabled o.fails name b s.store in
      elim (fault_of res) [
        | some e ↦ refuse 404 (store_fault e) (with_store st s)
        | none ↦ patch_admin o name p.admin (record {
          server = with_store st s;
          reply = done;
          effects = if b then kick_all name s.hub else [];
        })
      ]
]

-- `patchUser`
unfoldable pub patch_user : Outside → Str → Option Patch → User → Server → Outcome
unfolding patch_known
patch_user o name none me s = refuse 400 unreadable_body s
patch_user o name (some p) me s =
    if harms_self name me p then refuse 400 own_rights s else patch_known o name p s

unfoldable pub delete_user : Outside → Str → User → Server → Outcome
delete_user o name me s =
    if name == me.name
    then refuse 400 own_account s
    else (let (st, res) = Admin.delete_user o.fails name s.store in
        elim (fault_of res) [
          | some e ↦ refuse 404 (store_fault e) (with_store st s)
          | none ↦ record { server = with_store st s; reply = done; effects = kick_all name s.hub }
        ])

unfoldable pub list_invites : Outside → User → Server → Outcome
list_invites o me s =
    let (st, is) = Admin.invites o.now s.store in answer (lists_invites is) (with_store st s)

-- `time.Duration(days) * 24 * time.Hour`, in an int64.
abbrev pub days_long : ℤ → ℤ
days_long d = signed64 ((bits64 d * (24 * 3600 * 10 ^ 9)) % 2 ^ 64)

unfoldable pub create_invite : Outside → Option InviteRequest → User → Server → Outcome
create_invite o none me s = refuse 400 unreadable_body s
create_invite o (some q) me s =
    let (st, res) =
      Admin.create_invite o.fails o.now o.code me.name q.uses (days_long q.days) q.note s.store in
    elim res [
      | Result.ok i ↦ answer (makes_invite i) (with_store st s)
      | Result.err e ↦ refuse 500 (store_fault e) (with_store st s)
      | Result.unsaved i ↦ refuse 500 (store_fault Error.not_saved) (with_store st s)
    ]

unfoldable pub revoke_invite : Outside → Str → User → Server → Outcome
revoke_invite o code me s =
    let (st, res) = Admin.revoke_invite o.fails code s.store in
    elim (fault_of res) [
      | some e ↦ refuse 404 (store_fault e) (with_store st s)
      | none ↦ answer done (with_store st s)
    ]

unfoldable pub home : Str → Server → Outcome
home path s = if path == codes "/" then answer shows_page s else refuse 404 no_page s
