-- ===== src/Server/Store/Sound.antt =====
-- Well-formed data of the store, map by map.
use void_bridge.Base.{ℕ, ◌<◌, ◌≡◌, Bool, true, List, some, Str, str_eq, arith, bytes_eq_iff}
use void_bridge.Base.Dict.{
  lookup, insert, delete, sweep, IsDistinct, lookup-insert, lookup-delete, lookup-sweep,
  insert-IsDistinct, delete-IsDistinct, sweep-IsDistinct,
}
use void_bridge.Server.Store.{User, Invite, Session, StoreData, is_username, is_device}

-- Users stand under their names, which have the right form.
pub record UsersSound (us : List (Str × User)) : Type 0 where
  pub users_distinct : IsDistinct us
  pub named : (k : Str) (u : User) → lookup k us ≡ some u → (u.name ≡ k) × (is_username k ≡ true)

-- Invites stand under their codes, and every one of them has uses left.
pub record InvitesSound (is : List (Str × Invite)) : Type 0 where
  pub invites_distinct : IsDistinct is
  pub coded : (k : Str) (i : Invite) → lookup k is ≡ some i → (i.code ≡ k) × (0 < i.uses_left)

-- A device of a user has one session at most.
pub record SessionsSound (ss : List (Str × Session)) : Type 0 where
  pub sessions_distinct : IsDistinct ss
  pub single :
      (j k : Str) (a b : Session)
      → lookup j ss ≡ some a
      → lookup k ss ≡ some b
      → a.user ≡ b.user
      → a.device_id ≡ b.device_id
      → j ≡ k

pub record IsSound (d : StoreData) : Type 0 where
  pub users_sound : UsersSound d.users
  pub invites_sound : InvitesSound d.invites
  pub sessions_sound : SessionsSound d.sessions

pub insert-UsersSound :
    (k : Str) (u : User) (us : List (Str × User))
    → UsersSound us
    → u.name ≡ k
    → is_username k ≡ true
    → UsersSound (insert k u us)
insert-UsersSound k u us v e h = record {
  users_distinct = insert-IsDistinct k u us v.users_distinct;
  named = λ j w f. ground (arith, lookup-insert k j u us, bytes_eq_iff k j, v.named j w);
}

pub delete-UsersSound :
    (k : Str) (us : List (Str × User)) → UsersSound us → UsersSound (delete k us)
delete-UsersSound k us v = record {
  users_distinct = delete-IsDistinct k us v.users_distinct;
  named = λ j w f. ground (arith, lookup-delete k j us, v.named j w);
}

pub insert-InvitesSound :
    (k : Str) (i : Invite) (is : List (Str × Invite))
    → InvitesSound is
    → i.code ≡ k
    → 0 < i.uses_left
    → InvitesSound (insert k i is)
insert-InvitesSound k i is v e h = record {
  invites_distinct = insert-IsDistinct k i is v.invites_distinct;
  coded = λ j w f. ground (arith, lookup-insert k j i is, bytes_eq_iff k j, v.coded j w);
}

pub delete-InvitesSound :
    (k : Str) (is : List (Str × Invite)) → InvitesSound is → InvitesSound (delete k is)
delete-InvitesSound k is v = record {
  invites_distinct = delete-IsDistinct k is v.invites_distinct;
  coded = λ j w f. ground (arith, lookup-delete k j is, v.coded j w);
}

pub sweep-InvitesSound :
    (p : Invite → Bool) (is : List (Str × Invite)) → InvitesSound is → InvitesSound (sweep p is)
sweep-InvitesSound p is v = record {
  invites_distinct = sweep-IsDistinct p is v.invites_distinct;
  coded = λ j w f. ground (arith, lookup-sweep p j is v.invites_distinct, v.coded j w);
}

-- The last use: the invite that is put back with no use left is deleted.
pub spent-InvitesSound :
    (k c : Str) (i : Invite) (is : List (Str × Invite))
    → InvitesSound is
    → c ≡ k
    → InvitesSound (delete c (insert k i is))
spent-InvitesSound k c i is v e = record {
  invites_distinct =
      delete-IsDistinct c (insert k i is) (insert-IsDistinct k i is v.invites_distinct);
  coded = λ j w f.
      ground (arith, lookup-delete c j (insert k i is), lookup-insert k j i is, v.coded j w);
}

pub delete-SessionsSound :
    (k : Str) (ss : List (Str × Session)) → SessionsSound ss → SessionsSound (delete k ss)
delete-SessionsSound k ss v = record {
  sessions_distinct = delete-IsDistinct k ss v.sessions_distinct;
  single = λ i j a b ea eb eu ed.
      ground (arith, lookup-delete k i ss, lookup-delete k j ss, v.single i j a b);
}

pub sweep-SessionsSound :
    (p : Session → Bool) (ss : List (Str × Session)) → SessionsSound ss → SessionsSound (sweep p ss)
sweep-SessionsSound p ss v = record {
  sessions_distinct = sweep-IsDistinct p ss v.sessions_distinct;
  single = λ i j a b ea eb eu ed. ground (
    arith,
    lookup-sweep p i ss v.sessions_distinct,
    lookup-sweep p j ss v.sessions_distinct,
    v.single i j a b,
  );
}

-- A new session, after the older ones of the device are gone.
pub insert-SessionsSound :
    (k : Str) (se : Session) (ss : List (Str × Session))
    → SessionsSound ss
    → SessionsSound (insert k se (sweep (is_device se.user se.device_id) ss))
insert-SessionsSound k se ss v =
    let p = is_device se.user se.device_id in
    let w = sweep-SessionsSound p ss v in
    record {
      sessions_distinct = insert-IsDistinct k se (sweep p ss) w.sessions_distinct;
      single = λ i j a b ea eb eu ed. ground (
        arith,
        lookup-insert k i se (sweep p ss),
        lookup-insert k j se (sweep p ss),
        lookup-sweep p i ss v.sessions_distinct,
        lookup-sweep p j ss v.sessions_distinct,
        bytes_eq_iff k i,
        bytes_eq_iff k j,
        bytes_eq_iff a.user se.user,
        bytes_eq_iff b.user se.user,
        bytes_eq_iff a.device_id se.device_id,
        bytes_eq_iff b.device_id se.device_id,
        v.single i j a b,
      );
    }

-- A session that is put back with another time of use.
pub touch-SessionsSound :
    (k : Str) (se : Session) (now : ℕ) (ss : List (Str × Session))
    → SessionsSound ss
    → lookup k ss ≡ some se
    → SessionsSound (insert k (record se { last_seen = now }) ss)
touch-SessionsSound k se now ss v e =
    let se' : Session = record se { last_seen = now } in
    record {
      sessions_distinct = insert-IsDistinct k se' ss v.sessions_distinct;
      single = λ i j a b ea eb eu ed. ground (
        arith,
        lookup-insert k i se' ss,
        lookup-insert k j se' ss,
        bytes_eq_iff k i,
        bytes_eq_iff k j,
        v.single i j a b,
        v.single i j se b,
        v.single i j a se,
      );
    }
