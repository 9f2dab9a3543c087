-- ===== src/Relay/Client.antt =====
-- internal/relay/relay.go: the sync connection: one session, and the loop that keeps it up. Times
-- are in nanoseconds.
use void_bridge.Base.{
  ℕ, ◌*◌, ◌^◌, Bool, true, false, List, [], ◌∷◌, ◌++◌, Option, none, some, Str, str_eq, nat_eq,
  ◌==◌, if◌then◌else◌, min,
}
use void_bridge.Protocol.Message.{Message, MsgType, PeerInfo}
use void_bridge.Protocol.Frame.{HeaderCodec, decode}
use void_bridge.Relay.Call.{RelayError, unauthorized, insecure, unreachable, connection_lost}

pub data Dialled : Type 0 where
  insecure_address : Dialled
  no_connection : Option ℕ → Dialled
  connected : Dialled

-- What is read before the connection ends, which the end of the list stands for.
pub data Frame : Type 0 where
  text binary : Str → Frame

pub data Effect : Type 0 where
  adds_link removes_link shows_connected signs_out : Effect
  shows_ended : Option RelayError → Effect
  devices : List PeerInfo → Effect
  hands : Message → Effect
  waits : ℕ → Effect

abbrev pub handled_as : MsgType → Message → Effect
handled_as MsgType.devices m = devices m.peers
handled_as _ m = hands m

abbrev pub handled : Option Message → List Effect
handled none = []
handled (some m) = handled_as m.type m ∷ []

module _ (j : HeaderCodec) where
  -- The loop of `session`; it returns when a read fails.
  unfoldable pub read_all : List Frame → List Effect × Option RelayError
  unfolding decode
  read_all [] = ([], some connection_lost)
  read_all (text s ∷ fs) = read_all fs
  read_all (binary s ∷ fs) = let r = read_all fs in (handled (decode j s) ++ r.0, r.1)

  -- `session`, with the error that it returns.
  unfoldable pub session : Dialled → List Frame → List Effect × Option RelayError
  unfolding read_all
  session insecure_address fs = ([], some insecure)
  session (no_connection none) fs = ([], some unreachable)
  session (no_connection (some status)) fs =
      ([], some (if status == 401 then unauthorized else unreachable))
  session connected fs =
      let r = read_all fs in (adds_link ∷ shows_connected ∷ (r.0 ++ removes_link ∷ []), r.1)

abbrev pub second : ℕ
second = 10 ^ 9

abbrev pub is_unauthorized : Option RelayError → Bool
is_unauthorized (some RelayError.unauthorized) = true
is_unauthorized _ = false

abbrev pub backoff_after : Option RelayError → ℕ → ℕ
backoff_after none b = second
backoff_after (some e) b = min (b * 2) (30 * second)

-- One round of `Run`: what the session does, and whether the client was stopped during it or
-- during the wait after it.
pub record Round : Type 0 where
  pub dialled : Dialled
  pub frames : List Frame
  pub stopped : Bool
  pub stopped_waiting : Bool

module _ (j : HeaderCodec) where
  -- `Run`, until it returns or the list of rounds ends.
  unfoldable pub run_from : ℕ → List Round → List Effect
  unfolding session
  run_from backoff [] = []
  run_from backoff (r ∷ rs) =
      let s = session j r.dialled r.frames in
      let rest = run_from (backoff_after s.1 backoff) rs in
      s.0
      ++ (if r.stopped
          then []
          else if is_unauthorized s.1
          then shows_ended s.1 ∷ signs_out ∷ []
          else shows_ended s.1 ∷ waits backoff ∷ (if r.stopped_waiting then [] else rest))

  unfoldable pub run : List Round → List Effect
  unfolding run_from
  run rs = run_from second rs
