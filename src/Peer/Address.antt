-- ===== src/Peer/Address.antt =====
-- internal/peer/peer.go and tailscale.go: addresses as texts, and where they come from. What
-- Go's library and the system know of addresses are parameters.
use void_bridge.Base.{
  ℕ, ◌-◌, Bool, false, not, ◌&&◌, ◌||◌, List, [], ◌∷◌, ◌++◌, Option, none, some, Str, str_eq,
  nat_eq, ◌==◌, ltb, leb, if◌then◌else◌, map, codes, decimal64,
}
use Prim.Native.Nat.{bit_or}
use void_bridge.Protocol.Code.{trim_space, trim_left, trim_right}

-- Go's `net.IP` with its tests; `v4` has the four bytes of `To4`.
pub record Ip : Type 0 where
  pub v4 : Option (ℕ × ℕ × ℕ × ℕ)
  pub text : Str
  pub loopback : Bool
  pub unspecified : Bool
  pub private : Bool
  pub link_local : Bool

pub record Addresses : Type 0 where
  pub split_host : Str → Option Str
  pub join_host_port : Str → Str → Str
  pub parse_ip : Str → Option Ip

abbrev pub peer_port : ℕ
peer_port = 47829

abbrev pub is_bracket : ℕ → Bool
is_bracket c = (c == b'[') || (c == b']')

-- 100.64.0.0/10
abbrev pub in_cgnat : Option (ℕ × ℕ × ℕ × ℕ) → Bool
in_cgnat none = false
in_cgnat (some (a, b, c, d)) = (a == 100) && (leb 64 b && ltb b 128)

-- `via`: `none` for an address that is not TCP.
unfoldable pub via : Option Ip → Str
via none = codes "Wi-Fi"
via (some ip) = if in_cgnat ip.v4 then codes "Tailscale" else codes "Wi-Fi"

-- The addresses of the interfaces; `none` for one that is no network.
unfoldable pub local_ips : List (Option Ip) → List Str
local_ips [] = []
local_ips (none ∷ addrs) = local_ips addrs
local_ips (some ip ∷ addrs) = elim ip.v4 [
  | none ↦ local_ips addrs
  | some bytes ↦
      if not (ip.loopback || ip.link_local) && (ip.private || in_cgnat (some bytes))
      then ip.text ∷ local_ips addrs
      else local_ips addrs
]

-- The broadcast address of each network of an interface that is up, broadcasts and is not the
-- loopback: the address with all bits outside the mask set.
pub record Network : Type 0 where
  pub ip : Ip
  pub mask : List ℕ

pub record Interface : Type 0 where
  pub up : Bool
  pub broadcast : Bool
  pub is_loopback : Bool
  pub networks : List (Option Network)

abbrev pub Quad : Type 0
Quad = ℕ × ℕ × ℕ × ℕ

abbrev pub broadcast_in : Option Quad → List ℕ → Option Quad
broadcast_in (some (a, b, c, d)) (w ∷ x ∷ y ∷ z ∷ []) =
    some (bit_or a (255 - w), bit_or b (255 - x), bit_or c (255 - y), bit_or d (255 - z))
broadcast_in _ _ = none

unfoldable pub network_broadcasts : List (Option Network) → List Quad
network_broadcasts [] = []
network_broadcasts (none ∷ nets) = network_broadcasts nets
network_broadcasts (some n ∷ nets) = elim (broadcast_in n.ip.v4 n.mask) [
  | none ↦ network_broadcasts nets
  | some q ↦ q ∷ network_broadcasts nets
]

unfoldable pub interface_broadcasts : List Interface → List Quad
unfolding network_broadcasts
interface_broadcasts [] = []
interface_broadcasts (i ∷ is) =
    if not i.up || (not i.broadcast || i.is_loopback)
    then interface_broadcasts is
    else network_broadcasts i.networks ++ interface_broadcasts is

unfoldable pub broadcast_addrs : List Interface → List Quad
unfolding interface_broadcasts
broadcast_addrs is = (255, 255, 255, 255) ∷ interface_broadcasts is

-- The peers that the tailscale command lists.
pub record TailscalePeer : Type 0 where
  pub online : Bool
  pub ips : List Str

unfoldable pub has_byte : Str → ℕ → Bool
has_byte [] c = false
has_byte (x ∷ s) c = (x == c) || has_byte s c

unfoldable pub is_v4_text : Str → Bool
unfolding has_byte
is_v4_text [] = false
is_v4_text (c ∷ s) = not (c == b'f') && not (has_byte (c ∷ s) b':')

unfoldable pub v4_texts : List Str → List Str
unfolding is_v4_text
v4_texts [] = []
v4_texts (ip ∷ ips) = if is_v4_text ip then ip ∷ v4_texts ips else v4_texts ips

unfoldable pub tailscale_peers : List TailscalePeer → List Str
unfolding v4_texts
tailscale_peers [] = []
tailscale_peers (p ∷ ps) =
    if p.online then v4_texts p.ips ++ tailscale_peers ps else tailscale_peers ps

module _ (net : Addresses) where
  -- The test of `learn` on each address that another device tells.
  unfoldable pub is_usable : Bool → Str → Bool
  is_usable allow_loopback a = elim (net.split_host a) [
    | none ↦ false
    | some host ↦ elim (net.parse_ip host) [
      | none ↦ false
      | some ip ↦ (allow_loopback || not ip.loopback) && not ip.unspecified
    ]
  ]

  -- `normAddr`
  unfoldable pub norm_addr : Str → Str
  unfolding trim_space trim_left trim_right
  norm_addr a =
      let s = trim_space a in
      if s == [] then [] else elim (net.split_host s) [
        | none ↦
            net.join_host_port (trim_left is_bracket (trim_right is_bracket s))
              (decimal64 peer_port)
        | some host ↦ s
      ]

  abbrev pub at_port : ℕ → Str → Str
  at_port port ip = net.join_host_port ip (decimal64 port)

  unfoldable pub my_addrs : Bool → ℕ → List (Option Ip) → List Str
  unfolding local_ips
  my_addrs allow_loopback port interfaces =
      (if allow_loopback then at_port port (codes "127.0.0.1") ∷ [] else [])
      ++ map (at_port port) (local_ips interfaces)

  -- One round of `tailscaleLoop`, up to the call of `addTargets`.
  unfoldable pub tailscale_addrs : List Str → List Str
  tailscale_addrs ips = map (at_port peer_port) ips
