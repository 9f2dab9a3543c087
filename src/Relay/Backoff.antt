-- ===== src/Relay/Backoff.antt =====
-- internal/relay/relay.go: how long the loop waits between sessions.
use void_bridge.Base.{
  ℕ, zero, suc, ◌*◌, ◌≡◌, ◌≢◌, ◌≤◌, refl, ap, sym, subst, ◌∙◌, List, [], ◌∷◌, ◌++◌, Option, none,
  some, arith, if◌then◌else◌, length, All, min,
}
use void_bridge.Protocol.Message.{Message, MsgType}
use void_bridge.Protocol.Frame.{HeaderCodec, decode}
use void_bridge.Relay.Call.{RelayError}
use void_bridge.Relay.Client.{
  Effect, shows_ended, signs_out, waits, Frame, Dialled, Round, read_all, session, run_from, run,
  second, handled, handled_as, backoff_after, is_unauthorized,
}

unfoldable pub waits_of : List Effect → List ℕ
waits_of [] = []
waits_of (Effect.waits n ∷ es) = n ∷ waits_of es
waits_of (Effect.adds_link ∷ es) = waits_of es
waits_of (Effect.removes_link ∷ es) = waits_of es
waits_of (Effect.shows_connected ∷ es) = waits_of es
waits_of (Effect.signs_out ∷ es) = waits_of es
waits_of (Effect.shows_ended e ∷ es) = waits_of es
waits_of (Effect.devices ps ∷ es) = waits_of es
waits_of (Effect.hands m ∷ es) = waits_of es

-- The first waits of the doubling from `b` up to 30 seconds.
unfoldable pub schedule : ℕ → ℕ → List ℕ
schedule b zero = []
schedule b (suc n) = b ∷ schedule (min (b * 2) (30 * second)) n

waits_of-append : (xs ys : List Effect) → waits_of (xs ++ ys) ≡ waits_of xs ++ waits_of ys
unfolding waits_of
waits_of-append [] ys = refl
waits_of-append (Effect.waits n ∷ xs) ys = ap (◌∷◌ n) (waits_of-append xs ys)
waits_of-append (Effect.adds_link ∷ xs) ys = waits_of-append xs ys
waits_of-append (Effect.removes_link ∷ xs) ys = waits_of-append xs ys
waits_of-append (Effect.shows_connected ∷ xs) ys = waits_of-append xs ys
waits_of-append (Effect.signs_out ∷ xs) ys = waits_of-append xs ys
waits_of-append (Effect.shows_ended e ∷ xs) ys = waits_of-append xs ys
waits_of-append (Effect.devices ps ∷ xs) ys = waits_of-append xs ys
waits_of-append (Effect.hands m ∷ xs) ys = waits_of-append xs ys

module _ (j : HeaderCodec) where
  handled-waits : (m : Option Message) → waits_of (handled m) ≡ []
  unfolding waits_of
  handled-waits none = refl
  handled-waits (some m) = go m.type
    where
      go : (t : MsgType) → waits_of (handled_as t m ∷ []) ≡ []
      go MsgType.devices = refl
      go t = refl

  read_all-waits :
      (fs : List Frame) → (waits_of (read_all j fs).0 ≡ []) × ((read_all j fs).1 ≢ none)
  unfolding read_all waits_of
  read_all-waits [] = (refl, λ e. cc)
  read_all-waits (Frame.text s ∷ fs) = read_all-waits fs
  read_all-waits (Frame.binary s ∷ fs) = ground (
    arith,
    read_all-waits fs,
    waits_of-append (handled (decode j s)) (read_all j fs).0,
    handled-waits (decode j s),
  )

  -- A session never ends without an error.
  session-waits :
      (d : Dialled) (fs : List Frame)
      → (waits_of (session j d fs).0 ≡ []) × ((session j d fs).1 ≢ none)
  unfolding session waits_of
  session-waits Dialled.insecure_address fs = (refl, λ e. cc)
  session-waits (Dialled.no_connection none) fs = (refl, λ e. cc)
  session-waits (Dialled.no_connection (some status)) fs = (refl, λ e. cc)
  session-waits Dialled.connected fs =
      ground
        (arith, read_all-waits fs, waits_of-append (read_all j fs).0 (Effect.removes_link ∷ []))

  -- What follows a session in its round.
  abbrev after : ℕ → Round → Option RelayError → List Round → List Effect
  after b r e rs =
      if r.stopped
      then []
      else if is_unauthorized e
      then shows_ended e ∷ signs_out ∷ []
      else shows_ended e
        ∷ waits b
        ∷ (if r.stopped_waiting then [] else run_from j (backoff_after e b) rs)

  abbrev IsScheduled : ℕ → List Effect → Type 0
  IsScheduled b es = waits_of es ≡ schedule b (length (waits_of es))

  after-IsScheduled :
      (b : ℕ) (r : Round) (e : Option RelayError) (rs : List Round)
      → e ≢ none
      → ((b' : ℕ) → IsScheduled b' (run_from j b' rs))
      → IsScheduled b (after b r e rs)
  unfolding waits_of schedule
  after-IsScheduled b r none rs h ih = absurd (h refl)
  after-IsScheduled b r (some e) rs h ih = ground (arith, ih (min (b * 2) (30 * second)))

  run_from-IsScheduled : (rs : List Round) (b : ℕ) → IsScheduled b (run_from j b rs)
  unfolding run_from waits_of schedule
  run_from-IsScheduled [] b = refl
  run_from-IsScheduled (r ∷ rs) b =
      let s = session j r.dialled r.frames in
      let w = session-waits r.dialled r.frames in
      let same : waits_of (s.0 ++ after b r s.1 rs) ≡ waits_of (after b r s.1 rs) =
        waits_of-append s.0 (after b r s.1 rs)
        ∙ ap (λ (ns : List ℕ). ns ++ waits_of (after b r s.1 rs)) w.0 in
      same
      ∙ after-IsScheduled b r s.1 rs w.1 (run_from-IsScheduled rs)
      ∙ ap (λ (ns : List ℕ). schedule b (length ns)) (sym same)

schedule-le : (n b : ℕ) → b ≤ 30 * second → All (λ t. t ≤ 30 * second) (schedule b n)
unfolding schedule
schedule-le zero b h = tt
schedule-le (suc n) b h = (h, schedule-le n (min (b * 2) (30 * second)) (omega arith))

-- Whatever the server does and however long the sessions are, the waits between them are one
-- second, two, four and so on, doubled up to 30 seconds and never more. They never start again
-- from one second, since a session never ends without an error.
pub run-waits :
    (j : HeaderCodec) (rs : List Round)
    → (waits_of (run j rs) ≡ schedule second (length (waits_of (run j rs))))
      × All (λ t. t ≤ 30 * second) (waits_of (run j rs))
unfolding run
run-waits j rs =
    let e = run_from-IsScheduled j rs second in
    (
      e,
      subst (All (λ t. t ≤ 30 * second)) (sym e)
          (schedule-le (length (waits_of (run_from j second rs))) second (omega arith)),
    )
