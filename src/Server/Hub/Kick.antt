-- ===== src/Server/Hub/Kick.antt =====
-- internal/server/server.go: which connections `kick` cancels.
use void_bridge.Base.{
  ℕ, ◌+◌, ◌≡◌, refl, ◌&&◌, List, [], ◌∷◌, none, some, Str, arith, if◌then◌else◌, ◌==◌, str_eq,
  nat_eq, filterb, subst,
}
use void_bridge.Base.Dict.{lookup}
use void_bridge.Server.Hub.{Conn, Hub, Effect, sends, cancels, kick, all_cancel, acct}

-- How often the connection of a number is cancelled, and how many messages are sent.
unfoldable pub cancels_of : ℕ → List Effect → ℕ
cancels_of n [] = 0
cancels_of n (cancels c ∷ es) = (if c.handle == n then 1 else 0) + cancels_of n es
cancels_of n (sends c m ∷ es) = cancels_of n es

unfoldable pub sends_of : List Effect → ℕ
sends_of [] = 0
sends_of (cancels c ∷ es) = sends_of es
sends_of (sends c m ∷ es) = 1 + sends_of es

-- How many of the connections are the device's and have the number.
unfoldable pub conns_of : ℕ → Str → List Conn → ℕ
conns_of n device [] = 0
conns_of n device (c ∷ cs) =
    (if (c.handle == n) && (c.device_id == device) then 1 else 0) + conns_of n device cs

-- The connections of a user's account.
abbrev pub live_conns : Str → Hub → List Conn
live_conns user h = elim (lookup user h.accounts) [ none ↦ [] | some a ↦ a.conns ]

cancels_of-all_cancel :
    (n : ℕ) (device : Str) (cs : List Conn)
    → (cancels_of n (all_cancel (filterb (λ c. c.device_id == device) cs)) ≡ conns_of n device cs)
      × (sends_of (all_cancel (filterb (λ c. c.device_id == device) cs)) ≡ 0)
unfolding cancels_of conns_of sends_of filterb
cancels_of-all_cancel n device [] = (refl, refl)
cancels_of-all_cancel n device (c ∷ cs) = ground (arith, cancels_of-all_cancel n device cs)

acct-conns : (user : Str) (h : Hub) → (acct user h).conns ≡ live_conns user h
acct-conns user h = ground arith

-- The connections of the user's device are cancelled, each once, and nothing else is done.
pub cancels_of-kick :
    (n : ℕ) (user device : Str) (h : Hub)
    → (cancels_of n (kick user device h) ≡ conns_of n device (live_conns user h))
      × (sends_of (kick user device h) ≡ 0)
unfolding kick
cancels_of-kick n user device h =
    subst
      (λ (cs : List Conn).
        (cancels_of n (kick user device h) ≡ conns_of n device cs)
        × (sends_of (kick user device h) ≡ 0))
      (acct-conns user h) (cancels_of-all_cancel n device (acct user h).conns)
