-- ===== src/Server/Hub/Relay.antt =====
-- The clip that the server keeps for an account: devices that connect later get it.
use void_bridge.Base.{
  ◌≡◌, refl, Bool, true, false, not, List, [], ◌∷◌, ◌++◌, Option, none, some, Str, str_eq, nat_eq,
  ◌==◌, arith, inl, inr, bytes_eq_iff, eq_refl, Bool-cases, ◌&&◌, filterb, if◌then◌else◌, sym, ◌∙◌,
  ap, subst,
}
use void_bridge.Protocol.Message.{Message, newer, is_file}
use void_bridge.Protocol.Order.{newer_than_trans}
use void_bridge.Node.Clips.Order.{Advances, pick-Advances, Advances-refl}
use void_bridge.Server.Hub.{
  Conn, Account, Hub, Effect, sends, connect, disconnect, route, route_target, track, receive,
  pass_clip, Event, connects, disconnects, receives, step, acct, is_stale, is_clip, with_account,
  is_conn, all_send, broadcast_devices, all_cancel,
}
use void_bridge.Server.Hub.Apart.{acct-with_account}
use void_bridge.Server.Hub.Notice.{Has, happen}

abbrev pub clip_of : Str → Hub → Option Message
clip_of u h = (acct u h).current

abbrev clip_after : Str → Hub × List Effect → Option Message
clip_after u r = clip_of u r.0

clip_of-with_account :
    (u w : Str) (a : Account) (h : Hub)
    → clip_of w (with_account u a h) ≡ (if u == w then a.current else clip_of w h)
clip_of-with_account u w a h = ground (arith, acct-with_account u w a h)

-- An account that is written back with its clip.
kept_clip :
    (u w : Str) (a : Account) (h : Hub)
    → a.current ≡ clip_of u h
    → clip_of w (with_account u a h) ≡ clip_of w h
kept_clip u w a h e = clip_of-with_account u w a h ∙ (elim (Bool-cases (u == w)) [
  | inl same ↦ rw same (e ∙ ap (λ x. clip_of x h) ((bytes_eq_iff u w).0 same))
  | inr other ↦ rw other refl
])

Advances-kept : (c c' : Option Message) → c' ≡ c → Advances c c'
Advances-kept c c' e = subst (Advances c) (sym e) (Advances-refl c)

Advances-newer_clip : (m : Message) (c : Option Message) → newer m c ≡ true → Advances c (some m)
Advances-newer_clip m c h = subst (Advances c) (rw h refl) (pick-Advances c m)

taken_clip :
    (u : Str) (c : Conn) (m : Message) (h : Hub)
    → newer m (clip_of c.user h) ≡ true
    → Advances
        (clip_of u h)
        (clip_of u (with_account c.user (record (acct c.user h) { current = some m }) h))
taken_clip u c m h n =
    subst (Advances (clip_of u h))
      (sym (clip_of-with_account c.user u (record (acct c.user h) { current = some m }) h))
      (elim (Bool-cases (c.user == u)) [
        | inl same ↦ rw same (
            subst (λ w. Advances (clip_of w h) (some m)) ((bytes_eq_iff c.user u).0 same)
              (Advances-newer_clip m (clip_of c.user h) n))
        | inr other ↦ rw other (Advances-refl (clip_of u h))
      ])

pass_clip-Advances :
    (u : Str) (c : Conn) (m : Message) (h : Hub)
    → Advances (clip_of u h) (clip_of u (pass_clip c m h).0)
unfolding pass_clip
pass_clip-Advances u c m h = go (is_stale m (clip_of c.user h)) refl
  where
    go :
        (b : Bool)
        → is_stale m (clip_of c.user h) ≡ b
        → Advances (clip_of u h) (
            clip_after u (
              if b then (with_account c.user (acct c.user h) h, []) else (
                with_account c.user (record (acct c.user h) { current = some m }) h,
                all_send m (filterb (λ o. not (is_conn c o)) (acct c.user h).conns),
              )))
    go true e = Advances-kept (clip_of u h) _ (kept_clip c.user u (acct c.user h) h refl)
    go false e = taken_clip u c m h (ground (arith, e))

Advances-trans : (a b c : Option Message) → Advances a b → Advances b c → Advances a c
Advances-trans none b c p q = tt
Advances-trans (some x) b c (inl e) q = subst (λ o. Advances o c) e q
Advances-trans (some x) b c (inr (y, e, n)) q = elim (subst (λ o. Advances o c) e q) [
  | inl f ↦ inr (y, f, n)
  | inr (z, f, k) ↦ inr (z, f, newer_than_trans z y x k n)
]

track-clip :
    (u : Str) (c : Conn) (m : Message) (target : Option Conn) (h : Hub)
    → clip_of u (track c m target h) ≡ clip_of u h
unfolding track
track-clip u c m none h = ground arith
track-clip u c m (some o) h = ground arith

step-Advances : (u : Str) (e : Event) (h : Hub) → Advances (clip_of u h) (clip_of u (step e h).0)
unfolding step connect disconnect receive route
step-Advances u (connects c) h =
    Advances-kept (clip_of u h) _
      (kept_clip c.user u (record (acct c.user h) { conns = c ∷ (acct c.user h).conns }) h refl)
step-Advances u (disconnects c) h = Advances-kept (clip_of u h) _ (
    kept_clip c.user u
      (record (acct c.user h) { conns = filterb (λ o. not (is_conn c o)) (acct c.user h).conns }) h
      refl)
step-Advances u (receives fails c m) h = go (is_file m.type && not (m.to == [])) (is_clip m.type)
  where
    go :
        (b b' : Bool)
        → Advances (clip_of u h) (
            clip_after u (if b then route fails c m h else if b' then pass_clip c m h else (h, [])))
    go true b' = Advances-kept (clip_of u h) _ (track-clip u c m (route_target c m h) h)
    go false true = pass_clip-Advances u c m h
    go false false = Advances-refl (clip_of u h)

happen-Advances :
    (u : Str) (es : List Event) (h : Hub) → Advances (clip_of u h) (clip_of u (happen es h))
unfolding happen
happen-Advances u [] h = Advances-refl (clip_of u h)
happen-Advances u (e ∷ es) h =
    Advances-trans _ (clip_of u (step e h).0) _ (step-Advances u e h)
      (happen-Advances u es (step e h).0)

passed_clip :
    (c : Conn) (m : Message) (h : Hub)
    → is_stale m (clip_of c.user h) ≡ false
    → clip_of c.user (pass_clip c m h).0 ≡ some m
unfolding pass_clip
passed_clip c m h fresh = go (is_stale m (clip_of c.user h)) fresh
  where
    go :
        (b : Bool)
        → b ≡ false
        → clip_after c.user (
            if b then (with_account c.user (acct c.user h) h, []) else (
              with_account c.user (record (acct c.user h) { current = some m }) h,
              all_send m (filterb (λ o. not (is_conn c o)) (acct c.user h).conns),
            ))
          ≡ some m
    go true e = cc
    go false e =
        clip_of-with_account c.user c.user (record (acct c.user h) { current = some m }) h
        ∙ rw (eq_refl c.user) refl

Advances-some :
    (m : Message) (o : Option Message)
    → Advances (some m) o
    → (x : Message) × (o ≡ some x) × Advances (some m) (some x)
Advances-some m o (inl e) = (m, e, inl refl)
Advances-some m o (inr (y, e, n)) = (y, e, inr (y, refl, n))

Has-append_right : (a : Effect) (xs ys : List Effect) → Has a ys → Has a (xs ++ ys)
Has-append_right a [] ys h = h
Has-append_right a (x ∷ xs) ys h = inr (Has-append_right a xs ys h)

sent_current :
    (d : Conn) (x : Message) (o : Option Message)
    → o ≡ some x
    → Has (sends d x) (elim o as (λ _. List Effect) [ none ↦ [] | some m ↦ sends d m ∷ [] ])
sent_current d x none e = cc
sent_current d x (some m) e = inl (ground arith)

connect-Has :
    (d : Conn) (x : Message) (h : Hub) → clip_of d.user h ≡ some x → Has (sends d x) (connect d h).1
unfolding connect
connect-Has d x h e =
    let a = acct d.user h in
    Has-append_right _ (all_cancel (filterb (λ o. o.device_id == d.device_id) a.conns)) _ (
      Has-append_right _
        (broadcast_devices d.user (with_account d.user (record a { conns = d ∷ a.conns }) h)) _
        (sent_current d x a.current e))

-- After a newer clip reaches the server, and whatever happens then, a device of the same user that
-- connects is sent a clip, and it is that clip or a newer one.
pub connect_delivers :
    (c d : Conn) (m : Message) (es : List Event) (h : Hub)
    → is_stale m (clip_of c.user h) ≡ false
    → d.user ≡ c.user
    → let h' = happen es (pass_clip c m h).0 in
      (x : Message) × Advances (some m) (some x) × Has (sends d x) (connect d h').1
connect_delivers c d m es h fresh same =
    let h₁ = (pass_clip c m h).0 in
    let later = happen-Advances c.user es h₁ in
    let (x, e, a) =
      Advances-some m (clip_of c.user (happen es h₁))
        (subst (λ o. Advances o (clip_of c.user (happen es h₁))) (passed_clip c m h fresh) later) in
    (x, a, connect-Has d x (happen es h₁) (ap (λ u. clip_of u (happen es h₁)) same ∙ e))
