-- ===== src/Server/Api/Overlap.antt =====
-- internal/server/server.go: requests of two admins whose authentications are both done before
-- either of their handlers changes the store. `auth` takes the store's lock and gives it back
-- before the handler takes it again, so that Go can run them so.
use void_bridge.Base.{
  refl, bytes_eq, ◌≡◌, ◌≢◌, ◌⊎◌, true, false, inl, inr, none, some, Str, arith, bytes_eq_iff,
  str_eq, sym, ◌∙◌, ℕ, Bool, Option, List, eq_refl,
}
use void_bridge.Base.Dict.{lookup, insert, lookup-insert}
use void_bridge.Server.Store.{
  User, Session, Store, Result, ok, err, unsaved, save, authenticate, is_device,
}
use void_bridge.Server.Store.Admin
use void_bridge.Server.Store.Boss.{IsBoss, authenticate-rest}
use void_bridge.Server.Api.{Patch, Server, Outside, done, with_store}
use void_bridge.Server.Api.Console.{patch_user, patch_known, patch_admin}
use void_bridge.Protocol.Crypto.{Hashes}
use void_bridge.Server.Api.Guards.{touched-session}
use void_bridge.Server.Api.Admins.{HasAdmin}

abbrev pub disable : Patch
disable = record { disabled = some true; admin = none }

-- The account of an accepted token.
abbrev pub sender : Result (Session × User) → Option User
sender (ok (se, u)) = some u
sender (err e) = none
sender (unsaved (se, u)) = some u

-- Two different accounts are enabled admins, and no other is.
pub record IsOnly (a b : User) (users : List (Str × User)) : Type 0 where
  pub differ : a.name ≢ b.name
  pub known_a : lookup a.name users ≡ some a
  pub known_b : lookup b.name users ≡ some b
  pub enabled_a : a.disabled ≡ false
  pub enabled_b : b.disabled ≡ false
  pub admin_a : a.admin ≡ true
  pub admin_b : b.admin ≡ true
  pub only : (n : Str) → IsBoss n users → (n ≡ a.name) ⊎ (n ≡ b.name)

sender-authenticate :
    (hs : Hashes) (f : Bool) (now : ℕ) (token : Str) (st : Store) (se : Session) (u : User)
    → lookup (hs.sha256_hex token) st.mem.sessions ≡ some se
    → lookup se.user st.mem.users ≡ some u
    → u.disabled ≡ false
    → sender (authenticate hs f now token st).1 ≡ some u
unfolding authenticate
sender-authenticate hs f now token st se u e e' d = ground arith

-- Authentication with one token keeps whose session every token has.
kept_user :
    (hs : Hashes) (f : Bool) (now : ℕ) (token other : Str) (st : Store) (se : Session)
    → lookup (hs.sha256_hex other) st.mem.sessions ≡ some se
    → (se' : Session) × (lookup
          (hs.sha256_hex other)
          (authenticate hs f now token st).0.mem.sessions
        ≡ some se')
      × (se'.user ≡ se.user)
kept_user hs f now token other st se e =
    let device : is_device se.user se.device_id se ≡ true =
      rw (eq_refl se.user, eq_refl se.device_id) refl in
    let (se', e', d) = touched-session hs f now token other se.user se.device_id st se e device in
    (se', e', ground (arith, d, bytes_eq_iff se'.user se.user))

patch_user-disable :
    (o : Outside) (name : Str) (me u : User) (s : Server)
    → name ≢ me.name
    → lookup name s.store.mem.users ≡ some u
    → o.fails ≡ false
    → let x = patch_user o name (some disable) me s in
      (x.reply ≡ done)
      × (x.server.store.mem.users ≡ insert name (record u { disabled = true }) s.store.mem.users)
unfolding patch_user patch_known patch_admin Admin.set_disabled Admin.update_user save
patch_user-disable o name me u s other e ok' = ground (arith, bytes_eq_iff name me.name)

patch_user-both :
    (a b : User) (o o' : Outside) (s : Server)
    → a.name ≢ b.name
    → lookup a.name s.store.mem.users ≡ some a
    → lookup b.name s.store.mem.users ≡ some b
    → ((n : Str) → IsBoss n s.store.mem.users → (n ≡ a.name) ⊎ (n ≡ b.name))
    → o.fails ≡ false
    → o'.fails ≡ false
    → let first = patch_user o b.name (some disable) a s in
      let second = patch_user o' a.name (some disable) b first.server in
      (first.reply ≡ done) × (second.reply ≡ done) × (¬ HasAdmin second.server.store.mem.users)
patch_user-both a b o o' s differ ea eb only fine fine' =
    let first = patch_user o b.name (some disable) a s in
    let (r, users) = patch_user-disable o b.name a b s (λ e. differ (sym e)) eb fine in
    let still : lookup a.name first.server.store.mem.users ≡ some a = rw users (
      lookup-insert b.name a.name (record b { disabled = true }) s.store.mem.users
      ∙ ground (arith, bytes_eq_iff b.name a.name)) in
    let (r', users') = patch_user-disable o' a.name b a first.server differ still fine' in
    (r, r', λ h. none_left h.name (rw (users', users) at h.boss))
  where
    none_left :
        (n : Str)
        → ¬ IsBoss n (
            insert a.name
              (record a { disabled = true })
              (insert b.name (record b { disabled = true }) s.store.mem.users))
    none_left n h =
        let a' : User = record a { disabled = true } in
        let b' : User = record b { disabled = true } in
        let inner = lookup-insert b.name n b' s.store.mem.users in
        let outer = lookup-insert a.name n a' (insert b.name b' s.store.mem.users) in
        let not_a : bytes_eq a.name n ≡ false = ground (arith, outer, h.known, h.is_enabled) in
        let not_b : bytes_eq b.name n ≡ false =
          ground (arith, outer, inner, not_a, h.known, h.is_enabled) in
        let before : IsBoss n s.store.mem.users = record {
          account = h.account;
          known = ground (arith, outer, inner, not_a, not_b, h.known);
          is_admin = h.is_admin;
          is_enabled = h.is_enabled;
        } in
        elim (only n before) [
          | inl e ↦ ground (arith, not_a, bytes_eq_iff a.name n, e)
          | inr e ↦ ground (arith, not_b, bytes_eq_iff b.name n, e)
        ]

-- Two admins, who are the only ones, disable each other: both requests are authenticated, and then
-- both handlers run. If the disk takes the writes of the handlers, both tokens are accepted, both
-- requests are answered with success, and no enabled admin is left.
pub patch_user_leaves_none :
    (hs : Hashes) (ta tb : Str) (sa sb : Session) (a b : User) (o o' : Outside) (s : Server)
    → lookup (hs.sha256_hex ta) s.store.mem.sessions ≡ some sa
    → lookup (hs.sha256_hex tb) s.store.mem.sessions ≡ some sb
    → sa.user ≡ a.name
    → sb.user ≡ b.name
    → IsOnly a b s.store.mem.users
    → o.fails ≡ false
    → o'.fails ≡ false
    → let (st, as_a) = authenticate hs o.touch_fails o.now ta s.store in
      let (st', as_b) = authenticate hs o'.touch_fails o'.now tb st in
      let first = patch_user o b.name (some disable) a (with_store st' s) in
      let second = patch_user o' a.name (some disable) b first.server in
      (sender as_a ≡ some a)
      × (sender as_b ≡ some b)
      × (first.reply ≡ done)
      × (second.reply ≡ done)
      × (¬ HasAdmin second.server.store.mem.users)
patch_user_leaves_none hs ta tb sa sb a b o o' s ka kb na nb pair fine fine' =
    let st = (authenticate hs o.touch_fails o.now ta s.store).0 in
    let st' = (authenticate hs o'.touch_fails o'.now tb st).0 in
    let us = (authenticate-rest hs o.touch_fails o.now ta s.store).0 in
    let us' = (authenticate-rest hs o'.touch_fails o'.now tb st).0 ∙ us in
    let (sb', kb', nb') = kept_user hs o.touch_fails o.now ta tb s.store sb kb in
    let (r, r', none_left) =
      patch_user-both a b o o' (with_store st' s) pair.differ (rw us' pair.known_a)
        (rw us' pair.known_b) (λ n h. pair.only n (rw us' at h)) fine fine' in
    (
      sender-authenticate hs o.touch_fails o.now ta s.store sa a ka (rw na pair.known_a)
          pair.enabled_a,
      sender-authenticate hs o'.touch_fails o'.now tb st sb' b kb' (rw (nb', nb, us) pair.known_b)
          pair.enabled_b,
      r,
      r',
      none_left,
    )
