-- ===== src/Tests/Programs.antt =====
-- The relay client, the listener and the settings.
use void_bridge.Base.{
  ◌≡◌, ◌≤◌, ◌*◌, refl, codes, List, [], ◌∷◌, ◌++◌, true, false, none, some, All, length, nat_eq,
  str_eq,
}
use void_bridge.Protocol.Frame.{HeaderCodec}
use void_bridge.Relay.Client.{Round, Dialled, Frame, run, second}
use void_bridge.Relay.Backoff.{waits_of, schedule, run-waits}
use void_bridge.Listener.{Sniffed, sniff, read_all, left, sniff-read_all}

abbrev no_json : HeaderCodec
no_json = record { is_clean = λ m. true; print = λ m. []; parse = λ s. none }

abbrev lost : Round
lost = record {
  dialled = Dialled.no_connection none;
  frames = [];
  stopped = false;
  stopped_waiting = false;
}

-- Two failures, a session that reads a frame, a failure, and a token that is refused.
abbrev rounds : List Round
rounds =
    lost
    ∷ lost
    ∷ record lost { dialled = Dialled.connected; frames = Frame.binary (codes "x") ∷ [] }
    ∷ lost
    ∷ record lost { dialled = Dialled.no_connection (some 401) }
    ∷ lost
    ∷ []

four_waits :
    waits_of (run no_json rounds) ≡ second ∷ (2 * second) ∷ (4 * second) ∷ (8 * second) ∷ []
unfolding waits_of run
four_waits = refl

run-waits_example :
    (waits_of (run no_json rounds) ≡ schedule second (length (waits_of (run no_json rounds))))
    × All (λ t. t ≤ 30 * second) (waits_of (run no_json rounds))
run-waits_example = run-waits no_json rounds

sniff-read_all_example :
    (x : Sniffed) × (sniff true (0x16 ∷ codes "hello") ≡ some x)
    × ((read_all ((4, 9) ∷ (2, 1) ∷ (8, 3) ∷ []) x.stream).0
          ++ left (read_all ((4, 9) ∷ (2, 1) ∷ (8, 3) ∷ []) x.stream).1
        ≡ 0x16 ∷ codes "hello")
    × (x.is_tls ≡ true)
sniff-read_all_example = sniff-read_all true 0x16 (codes "hello") ((4, 9) ∷ (2, 1) ∷ (8, 3) ∷ [])
