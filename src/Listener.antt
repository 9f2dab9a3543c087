-- ===== src/Listener.antt =====
-- cmd/voidbridge-server/listener.go: one port for TLS and plain HTTP. A connection is the bytes
-- that it gives before it ends.
use void_bridge.Base.{
  ℕ, ◌≡◌, refl, ap, sym, ◌∙◌, Bool, true, false, ◌&&◌, List, [], ◌∷◌, ◌++◌, append_assoc, Option,
  none, some, Str, nat_eq, ◌==◌, if◌then◌else◌, take, drop, take-append-drop, min,
}

-- `prefixConn`: the bytes that were looked at, and the connection.
pub record Prefixed : Type 0 where
  pub first : Str
  pub conn : Str

abbrev pub is_empty : Str → Bool
is_empty [] = true
is_empty (c ∷ s) = false

-- `Read` into a buffer of some size; the system gives at most `given` bytes of the connection.
unfoldable pub read : ℕ → ℕ → Prefixed → Str × Prefixed
read size given p =
    if is_empty p.first
    then (
      take (min size given) p.conn,
      record { first = p.first; conn = drop (min size given) p.conn },
    )
    else (take size p.first, record { first = drop size p.first; conn = p.conn })

pub record Sniffed : Type 0 where
  pub is_tls : Bool
  pub stream : Prefixed

-- `sniff`: the first byte of a connection, if it has one in time, says how it is served.
unfoldable pub sniff : Bool → Str → Option Sniffed
sniff has_tls [] = none
sniff has_tls (c ∷ s) =
    some (record { is_tls = (c == 0x16) && has_tls; stream = record { first = c ∷ []; conn = s } })

-- One read after the other: what they give together, and what is left.
unfoldable pub read_all : List (ℕ × ℕ) → Prefixed → Str × Prefixed
unfolding read
read_all [] p = ([], p)
read_all ((size, given) ∷ ops) p =
    let r = read size given p in let rest = read_all ops r.1 in (r.0 ++ rest.0, rest.1)

abbrev pub left : Prefixed → Str
left p = p.first ++ p.conn

read-left :
    (size given : ℕ) (p : Prefixed) → (read size given p).0 ++ left (read size given p).1 ≡ left p
unfolding read
read-left size given p = go p.first
  where
    go :
        (first : Str)
        → (read size given (record { first = first; conn = p.conn })).0
            ++ left (read size given (record { first = first; conn = p.conn })).1
          ≡ first ++ p.conn
    go [] = take-append-drop (min size given) p.conn
    go (c ∷ s) =
        sym (append_assoc (take size (c ∷ s)) (drop size (c ∷ s)) p.conn)
        ∙ ap (λ (t : Str). t ++ p.conn) (take-append-drop size (c ∷ s))

read_all-left :
    (ops : List (ℕ × ℕ)) (p : Prefixed) → (read_all ops p).0 ++ left (read_all ops p).1 ≡ left p
unfolding read_all
read_all-left [] p = refl
read_all-left ((size, given) ∷ ops) p =
    let r = read size given p in
    append_assoc r.0 (read_all ops r.1).0 (left (read_all ops r.1).1)
    ∙ ap (λ (t : Str). r.0 ++ t) (read_all-left ops r.1)
    ∙ read-left size given p

-- Looking at the first byte loses nothing: however long the buffers are and however much the
-- system gives at a time, what a server reads from a connection that was looked at, with what is
-- left, is the connection from its first byte on; and it is taken for TLS exactly if there is a
-- certificate and that byte starts a TLS handshake.
pub sniff-read_all :
    (has_tls : Bool) (c : ℕ) (s : Str) (ops : List (ℕ × ℕ))
    → (x : Sniffed) × (sniff has_tls (c ∷ s) ≡ some x)
      × ((read_all ops x.stream).0 ++ left (read_all ops x.stream).1 ≡ c ∷ s)
      × (x.is_tls ≡ ((c == 0x16) && has_tls))
unfolding sniff
sniff-read_all has_tls c s ops =
    let p : Prefixed = record { first = c ∷ []; conn = s } in
    (record { is_tls = (c == 0x16) && has_tls; stream = p }, refl, read_all-left ops p, refl)
