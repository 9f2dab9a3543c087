-- ===== src/Server/Hub/Notice.antt =====
-- The sender of a file hears about it when the device that receives it disconnects.
use void_bridge.Base.{
  ◌≡◌, ◌≢◌, refl, Bool, true, false, not, List, [], ◌∷◌, ◌++◌, Option, none, some, Str, str_eq,
  nat_eq, ◌==◌, arith, ◌⊎◌, inl, inr, bytes_eq_iff, eq_refl, Bool-cases, ◌&&◌, map, filterb,
  if◌then◌else◌, sym, ◌∙◌, ap, subst,
}
use void_bridge.Base.Dict.{
  lookup, insert, IsDistinct, lookup-insert, lookup-delete, lookup-sweep, insert-IsDistinct,
  delete-IsDistinct, sweep-IsDistinct,
}
use void_bridge.Protocol.Message.{Message, MsgType, is_file}
use void_bridge.Server.Hub.{
  Conn, Transfer, Hub, Effect, connect, disconnect, route, route_target, track, failed, lost,
  receive, pass_clip, Event, connects, disconnects, receives, step, is_ack, is_clip, is_start,
  involves, is_orphan, transfers, transfer_of,
}

abbrev pub Has : {A : Type 0} → A → List A → Type 0
Has a [] = ⊥
Has a (x ∷ xs) = (a ≡ x) ⊎ Has a xs

Has-append : {A : Type 0} (a : A) (xs ys : List A) → Has a xs → Has a (xs ++ ys)
Has-append a [] ys h = absurd h
Has-append a (x ∷ xs) ys (inl e) = inl e
Has-append a (x ∷ xs) ys (inr h) = inr (Has-append a xs ys h)

Has-map : {A B : Type 0} (f : A → B) (a : A) (xs : List A) → Has a xs → Has (f a) (map f xs)
Has-map f a [] h = absurd h
Has-map f a (x ∷ xs) (inl e) = inl (ap f e)
Has-map f a (x ∷ xs) (inr h) = inr (Has-map f a xs h)

Has-filterb :
    {A : Type 0} (p : A → Bool) (a : A) (xs : List A) → Has a xs → p a ≡ true → Has a (filterb p xs)
unfolding filterb
Has-filterb p a [] h e = absurd h
Has-filterb p a (x ∷ xs) (inl q) e = rw (← q, e) (inl refl)
Has-filterb p a (x ∷ xs) (inr h) e = elim (Bool-cases (p x)) [
  | inl y ↦ rw y (inr (Has-filterb p a xs h e))
  | inr n ↦ rw n (Has-filterb p a xs h e)
]

lookup-Has :
    (k : Str) (t : Transfer) (ts : List (Str × Transfer))
    → lookup k ts ≡ some t
    → Has t (map (λ e. e.1) ts)
unfolding lookup
lookup-Has k t [] e = absurd (ground arith)
lookup-Has k t ((j, u) ∷ ts) e = ground (arith, lookup-Has k t ts)

-- The transfer is in flight under its id.
pub record IsPending (id : Str) (t : Transfer) (h : Hub) : Type 0 where
  pub no_twins : IsDistinct h.inflight
  pub in_flight : lookup id h.inflight ≡ some t

-- The event does not end the transfer: nobody acknowledges it or starts another with its id, and
-- neither of its ends disconnects.
abbrev pub Quiet : Str → Transfer → Event → Type 0
Quiet id t (connects c) = Unit {0}
Quiet id t (disconnects c) = involves c t ≡ false
Quiet id t (receives fails c m) =
    (m.id ≢ id) ⊎ ((is_ack m.type ≡ false) × (is_start m.type ≡ false))

abbrev pub QuietAll : Str → Transfer → List Event → Type 0
QuietAll id t [] = Unit {0}
QuietAll id t (e ∷ es) = Quiet id t e × QuietAll id t es

unfoldable pub happen : List Event → Hub → Hub
happen [] h = h
happen (e ∷ es) h = happen es (step e h).0

track-IsPending :
    (id : Str) (t : Transfer) (c : Conn) (m : Message) (target : Option Conn) (h : Hub)
    → (m.id ≢ id) ⊎ ((is_ack m.type ≡ false) × (is_start m.type ≡ false))
    → IsPending id t h
    → IsPending id t (track c m target h)
unfolding track
track-IsPending id t c m none h q v = record {
  no_twins = ground (arith, delete-IsDistinct m.id h.inflight v.no_twins, v.no_twins);
  in_flight = ground (arith, lookup-delete m.id id h.inflight, bytes_eq_iff m.id id, v.in_flight);
}
track-IsPending id t c m (some o) h q v = record {
  no_twins = ground (
    arith,
    delete-IsDistinct m.id h.inflight v.no_twins,
    insert-IsDistinct m.id (transfer_of c o m) h.inflight v.no_twins,
    v.no_twins,
  );
  in_flight = ground (
    arith,
    lookup-delete m.id id h.inflight,
    lookup-insert m.id id (transfer_of c o m) h.inflight,
    bytes_eq_iff m.id id,
    v.in_flight,
  );
}

IsPending-if :
    (id : Str) (t : Transfer) (b : Bool) (x y : Hub × List Effect)
    → IsPending id t x.0
    → IsPending id t y.0
    → IsPending id t (if b then x else y).0
IsPending-if id t true x y v w = v
IsPending-if id t false x y v w = w

pass_clip-inflight : (c : Conn) (m : Message) (h : Hub) → (pass_clip c m h).0.inflight ≡ h.inflight
unfolding pass_clip
pass_clip-inflight c m h = ground arith

step-IsPending :
    (id : Str) (t : Transfer) (e : Event) (h : Hub)
    → Quiet id t e
    → IsPending id t h
    → IsPending id t (step e h).0
unfolding step connect disconnect receive route
step-IsPending id t (connects c) h q v = record { no_twins = v.no_twins; in_flight = v.in_flight }
step-IsPending id t (disconnects c) h q v = record {
  no_twins = sweep-IsDistinct (involves c) h.inflight v.no_twins;
  in_flight = lookup-sweep (involves c) id h.inflight v.no_twins ∙ ground (arith, v.in_flight);
}
step-IsPending id t (receives fails c m) h q v =
    let e = pass_clip-inflight c m h in
    IsPending-if id t (is_file m.type && not (m.to == [])) (route fails c m h)
      (if is_clip m.type then pass_clip c m h else (h, []))
      (track-IsPending id t c m (route_target c m h) h q v)
      (IsPending-if id t (is_clip m.type) (pass_clip c m h) (h, [])
        (record {
          no_twins = subst IsDistinct (sym e) v.no_twins;
          in_flight = ap (lookup id) e ∙ v.in_flight;
        })
        v)

happen-IsPending :
    (id : Str) (t : Transfer) (es : List Event) (h : Hub)
    → QuietAll id t es
    → IsPending id t h
    → IsPending id t (happen es h)
unfolding happen
happen-IsPending id t [] h q v = v
happen-IsPending id t (e ∷ es) h q v =
    happen-IsPending id t es (step e h).0 q.1 (step-IsPending id t e h q.0 v)

disconnect-Has :
    (id : Str) (t : Transfer) (h : Hub)
    → IsPending id t h
    → Has (failed t.from t.id t.origin lost) (disconnect t.to h).1
unfolding disconnect
disconnect-Has id t h v =
    Has-append _ (map (λ (x : Transfer). failed x.from x.id x.origin lost) _) _ (
      Has-map (λ (x : Transfer). failed x.from x.id x.origin lost) t _
        (Has-filterb (is_orphan t.to) t (transfers h) (lookup-Has id t h.inflight v.in_flight)
          (eq_refl (t.to).handle)))

is_start-cases : (y : MsgType) → is_start y ≡ true → (is_ack y ≡ false) × (is_file y ≡ true)
unfolding is_file
is_start-cases MsgType.file_start h = (refl, refl)
is_start-cases _ h = cc

started-inflight :
    (fails : Bool) (from c : Conn) (m : Message) (h : Hub)
    → is_start m.type ≡ true
    → (m.to == []) ≡ false
    → route_target from m h ≡ some c
    → (step (receives fails from m) h).0.inflight ≡ insert m.id (transfer_of from c m) h.inflight
unfolding step receive route track
started-inflight fails from c m h s a r =
    let (k, f) = is_start-cases m.type s in rw (receive, f, a, route, r, track, k, s) refl

started-IsPending :
    (fails : Bool) (from c : Conn) (m : Message) (h : Hub)
    → IsDistinct h.inflight
    → is_start m.type ≡ true
    → (m.to == []) ≡ false
    → route_target from m h ≡ some c
    → IsPending m.id (transfer_of from c m) (step (receives fails from m) h).0
started-IsPending fails from c m h d s a r =
    let e = started-inflight fails from c m h s a r in
    record {
      no_twins =
          subst IsDistinct (sym e) (insert-IsDistinct m.id (transfer_of from c m) h.inflight d);
      in_flight =
          ap (lookup m.id) e
          ∙ (lookup-insert m.id m.id (transfer_of from c m) h.inflight ∙ rw (eq_refl m.id) refl);
    }

-- After a file was announced to a connected device `c`, and whatever else happened that did not
-- end the transfer, the connection of `c` ending makes the hub tell the sender that the file is
-- lost: an acknowledgement with an error goes to the connection that sent the announcement. The
-- transfers in flight have different ids.
pub disconnect_told :
    (fails : Bool) (from c : Conn) (m : Message) (es : List Event) (h : Hub)
    → IsDistinct h.inflight
    → is_start m.type ≡ true
    → (m.to == []) ≡ false
    → route_target from m h ≡ some c
    → QuietAll m.id (transfer_of from c m) es
    → Has
        (failed from m.id m.origin lost)
        (step (disconnects c) (happen es (step (receives fails from m) h).0)).1
unfolding step
disconnect_told fails from c m es h d s a r q =
    let h' = (step (receives fails from m) h).0 in
    disconnect-Has m.id (transfer_of from c m) (happen es h') (
      happen-IsPending m.id (transfer_of from c m) es h' q
        (started-IsPending fails from c m h d s a r))
