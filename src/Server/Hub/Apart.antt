-- ===== src/Server/Hub/Apart.antt =====
-- Accounts are kept apart: nothing that happens to a device reaches another user's device.
use void_bridge.Base.{
  ℕ, ◌≡◌, refl, Bool, true, false, not, List, [], ◌∷◌, Option, none, some, Str, str_eq, nat_eq,
  ◌==◌, arith, All, All-append, All-filterb, All-filterb-true, All-map, Bool-cases, inl, inr, sym,
  bytes_eq_iff, nat_beq_iff, subst, map, filterb, if◌then◌else◌,
}
use void_bridge.Base.Dict.{lookup, sweep, lookup-insert, insert-All, delete-All, sweep-All}
use void_bridge.Protocol.Message.{Message}
use void_bridge.Server.Hub.{
  Conn, Account, Transfer, Hub, Effect, sends, cancels, target_of, acct, no_account, with_account,
  connect, disconnect, broadcast_devices, route, route_target, first_of, track, told, failed,
  pass_clip, receive, Event, connects, disconnects, receives, step, event_conn, is_conn, is_ack,
  is_start, all_cancel, all_send, transfers, is_orphan, involves, lost, not_connected, transfer_of,
  devices_message,
}

pub acct-with_account :
    (u w : Str) (a : Account) (h : Hub)
    → acct w (with_account u a h) ≡ (if u == w then a else acct w h)
acct-with_account u w a h = ground (arith, lookup-insert u w a h.accounts)

-- Which user a connection belongs to, by its number.
module _ (owner : ℕ → Str) where
  abbrev pub Belongs : Str → Conn → Type 0
  Belongs u c = (c.user ≡ u) × (owner c.handle ≡ u)

  abbrev pub OneUser : Str × Transfer → Type 0
  OneUser e = Belongs (e.1).from.user (e.1).from × Belongs (e.1).from.user (e.1).to

  pub record IsApart (h : Hub) : Type 0 where
    pub accounts_apart : (u : Str) → All (Belongs u) (acct u h).conns
    pub inflight_apart : All OneUser h.inflight

  -- Effects on connections of one user.
  abbrev pub Within : Str → List Effect → Type 0
  Within u es = All (λ e. (target_of e).user ≡ u) es

  sends-Within :
      (u : Str) (m : Message) (cs : List Conn) → All (Belongs u) cs → Within u (all_send m cs)
  sends-Within u m cs a = All-map _ (Belongs u) (λ c. sends c m) (λ c b. b.0) cs a

  cancels-Within : (u : Str) (cs : List Conn) → All (Belongs u) cs → Within u (all_cancel cs)
  cancels-Within u cs a = All-map _ (Belongs u) (λ c. cancels c) (λ c b. b.0) cs a

  with_account-IsApart :
      (u : Str) (a : Account) (h : Hub)
      → IsApart h
      → All (Belongs u) a.conns
      → IsApart (with_account u a h)
  with_account-IsApart u a h v b = record {
    accounts_apart = λ w.
        subst (λ (x : Account). All (Belongs w) x.conns) (sym (acct-with_account u w a h))
          (chosen w);
    inflight_apart = v.inflight_apart;
  }
    where
      chosen : (w : Str) → All (Belongs w) (if u == w then a else acct w h).conns
      chosen w = elim (Bool-cases (u == w)) [
        | inl same ↦ rw same (subst (λ x. All (Belongs x) a.conns) ((bytes_eq_iff u w).0 same) b)
        | inr other ↦ rw other (v.accounts_apart w)
      ]

  broadcast-Within :
      (u : Str) (h : Hub) → All (Belongs u) (acct u h).conns → Within u (broadcast_devices u h)
  unfolding broadcast_devices
  broadcast-Within u h v = go (lookup u h.accounts) v
    where
      go :
          (o : Option Account)
          → All (Belongs u) (elim o as (λ _. Account) [ none ↦ no_account | some a ↦ a ]).conns
          → Within u (elim o as (λ _. List Effect) [
            | none ↦ []
            | some a ↦ all_send (devices_message a) a.conns
          ])
      go none b = tt
      go (some a) b = sends-Within u (devices_message a) a.conns b

  current-Within :
      (c : Conn) (o : Option Message)
      → Within c.user (elim o as (λ _. List Effect) [ none ↦ [] | some m ↦ sends c m ∷ [] ])
  current-Within c none = tt
  current-Within c (some m) = (refl, tt)

  connect-IsApart :
      (c : Conn) (h : Hub)
      → IsApart h
      → owner c.handle ≡ c.user
      → IsApart (connect c h).0 × Within c.user (connect c h).1
  unfolding connect
  connect-IsApart c h v o =
      let a = acct c.user h in
      let a' : Account = record a { conns = c ∷ a.conns } in
      let v' = with_account-IsApart c.user a' h v ((refl, o), v.accounts_apart c.user) in
      (
        v',
        All-append _ (all_cancel (filterb (λ o'. o'.device_id == c.device_id) a.conns)) _
            (cancels-Within c.user _
              (All-filterb (Belongs c.user) _ a.conns (v.accounts_apart c.user)))
            (All-append _ (broadcast_devices c.user (with_account c.user a' h)) _
              (broadcast-Within c.user (with_account c.user a' h) (v'.accounts_apart c.user))
              (current-Within c a.current)),
      )

  -- What a handler gives: accounts that are still apart, and effects on one user's connections.
  abbrev pub Kept : Str → Hub × List Effect → Type 0
  Kept u r = IsApart r.0 × Within u r.1

  Kept-if :
      (u : Str) (b : Bool) (x y : Hub × List Effect)
      → Kept u x
      → Kept u y
      → Kept u (if b then x else y)
  Kept-if u true x y p q = p
  Kept-if u false x y p q = q

  told-Within : (from : Conn) (m : Message) (reason : Str) → Within from.user (told from m reason)
  told-Within from m reason = ground arith

  -- The transfers to a connection come from a connection of its user.
  orphans-Within :
      (c : Conn) (h : Hub)
      → IsApart h
      → owner c.handle ≡ c.user
      → Within c.user (
          map
            (λ (t : Transfer). failed t.from t.id t.origin lost)
            (filterb (is_orphan c) (transfers h)))
  orphans-Within c h v o =
      All-map _ (λ t. OneUser ([], t) × (is_orphan c t ≡ true))
        (λ t. failed t.from t.id t.origin lost)
        (λ t b. ground (arith, nat_beq_iff t.to.handle c.handle)) _
        (All-filterb-true (λ t. OneUser ([], t)) (is_orphan c) (transfers h)
          (All-map (λ t. OneUser ([], t)) OneUser (λ e. e.1) (λ e b. b) h.inflight
            v.inflight_apart))

  disconnect-Kept :
      (c : Conn) (h : Hub) → IsApart h → owner c.handle ≡ c.user → Kept c.user (disconnect c h)
  unfolding disconnect
  disconnect-Kept c h v o =
      let a = acct c.user h in
      let h₀ = record h { inflight = sweep (involves c) h.inflight } in
      let v₀ : IsApart h₀ = record {
        accounts_apart = v.accounts_apart;
        inflight_apart = sweep-All OneUser (involves c) h.inflight v.inflight_apart;
      } in
      let left = record a { conns = filterb (λ o'. not (is_conn c o')) a.conns } in
      let v' =
        with_account-IsApart c.user left h₀ v₀
          (All-filterb (Belongs c.user) _ a.conns (v.accounts_apart c.user)) in
      (
        v',
        All-append _
            (map (λ (t : Transfer). failed t.from t.id t.origin lost)
              (filterb (is_orphan c) (transfers h)))
            _ (orphans-Within c h v o)
            (broadcast-Within c.user (with_account c.user left h₀) (v'.accounts_apart c.user)),
      )

  abbrev pub Found : (Conn → Type 0) → Option Conn → Type 0
  Found P none = Unit {0}
  Found P (some c) = P c

  first_of-Found :
      (P : Conn → Type 0) (p : Conn → Bool) (cs : List Conn) → All P cs → Found P (first_of p cs)
  unfolding first_of
  first_of-Found P p [] a = tt
  first_of-Found P p (c ∷ cs) a = elim (Bool-cases (p c)) [
    | inl e ↦ rw (e, first_of) a.0
    | inr e ↦ rw (e, first_of) (first_of-Found P p cs a.1)
  ]

  inflight-IsApart :
      (h : Hub) (ts : List (Str × Transfer))
      → IsApart h
      → All OneUser ts
      → IsApart (record h { inflight = ts })
  inflight-IsApart h ts v a = record { accounts_apart = v.accounts_apart; inflight_apart = a }

  IsApart-if : (b : Bool) (h h' : Hub) → IsApart h → IsApart h' → IsApart (if b then h else h')
  IsApart-if true h h' v w = v
  IsApart-if false h h' v w = w

  track-IsApart :
      (from : Conn) (m : Message) (target : Option Conn) (h : Hub)
      → IsApart h
      → owner from.handle ≡ from.user
      → Found (Belongs from.user) target
      → IsApart (track from m target h)
  unfolding track
  track-IsApart from m none h v o f =
      IsApart-if (is_ack m.type) _ h
        (inflight-IsApart h _ v (delete-All OneUser m.id h.inflight v.inflight_apart)) v
  track-IsApart from m (some c) h v o f =
      IsApart-if (is_ack m.type) _ _
        (inflight-IsApart h _ v (delete-All OneUser m.id h.inflight v.inflight_apart))
        (IsApart-if (is_start m.type) _ h
          (inflight-IsApart h _ v (
            insert-All OneUser m.id (transfer_of from c m) h.inflight ((refl, o), f)
              v.inflight_apart))
          v)

  passed-Within :
      (fails : Bool) (from : Conn) (m : Message) (target : Option Conn)
      → Found (Belongs from.user) target
      → Within from.user (elim target as (λ _. List Effect) [
        | none ↦ told from m not_connected
        | some c ↦ sends c m ∷ (if fails then cancels c ∷ told from m lost else [])
      ])
  passed-Within fails from m none f = told-Within from m not_connected
  passed-Within true from m (some c) f = (f.0, (f.0, told-Within from m lost))
  passed-Within false from m (some c) f = (f.0, tt)

  route-Kept :
      (fails : Bool) (from : Conn) (m : Message) (h : Hub)
      → IsApart h
      → owner from.handle ≡ from.user
      → Kept from.user (route fails from m h)
  unfolding route route_target
  route-Kept fails from m h v o =
      let f =
        first_of-Found (Belongs from.user) _ (acct from.user h).conns
          (v.accounts_apart from.user) in
      (
        track-IsApart from m (route_target from m h) h v o f,
        passed-Within fails from m (route_target from m h) f,
      )

  pass_clip-Kept : (c : Conn) (m : Message) (h : Hub) → IsApart h → Kept c.user (pass_clip c m h)
  unfolding pass_clip
  pass_clip-Kept c m h v =
      let a = acct c.user h in
      let b = v.accounts_apart c.user in
      Kept-if c.user _ _ _ (with_account-IsApart c.user a h v b, tt)
        (
          with_account-IsApart c.user (record a { current = some m }) h v b,
          sends-Within c.user m _ (All-filterb (Belongs c.user) _ a.conns b),
        )

  receive-Kept :
      (fails : Bool) (c : Conn) (m : Message) (h : Hub)
      → IsApart h
      → owner c.handle ≡ c.user
      → Kept c.user (receive fails c m h)
  unfolding receive
  receive-Kept fails c m h v o =
      Kept-if c.user _ _ _ (route-Kept fails c m h v o)
        (Kept-if c.user _ _ _ (pass_clip-Kept c m h v) (v, tt))

  -- If a number belongs to one user, accounts are kept apart: whatever happens to a connection, be
  -- it that it comes, goes, passes a clip or a file message, the hub writes to connections of the
  -- same user only and cancels no others. Connections stay in the account of their user, and the
  -- transfers in flight go between connections of one user.
  pub step-IsApart :
      (e : Event) (h : Hub)
      → IsApart h
      → owner (event_conn e).handle ≡ (event_conn e).user
      → IsApart (step e h).0 × Within (event_conn e).user (step e h).1
  unfolding step
  step-IsApart (connects c) h v o = connect-IsApart c h v o
  step-IsApart (disconnects c) h v o = disconnect-Kept c h v o
  step-IsApart (receives fails c m) h v o = receive-Kept fails c m h v o
