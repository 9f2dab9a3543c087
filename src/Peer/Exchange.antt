-- ===== src/Peer/Exchange.antt =====
-- internal/peer/peer.go: what arrives for the manager: messages on a link, and beacons.
use void_bridge.Base.{
  ℕ, not, ◌||◌, List, [], Option, none, some, Str, str_eq, nat_eq, ◌==◌, if◌then◌else◌, codes,
  decimal64,
}
use void_bridge.Protocol.Message.{
  Message, MsgType, Identity, blank, PeerInfo, version as our_version,
}
use void_bridge.Peer.Manager.{Manager, heard}
use void_bridge.Peer.Address.{Addresses}

-- What `readLoop` does with a message.
pub data Read : Type 0 where
  answers : Message → Read
  learns : List PeerInfo → Read
  hands_to_node : Message → Read

abbrev read_as : MsgType → Message → Read
read_as MsgType.ping msg = answers (blank MsgType.pong)
read_as MsgType.peers msg = learns msg.peers
read_as _ msg = hands_to_node msg

unfoldable pub read : Message → Read
read msg = read_as msg.type msg

pub record Beacon : Type 0 where
  pub app : Str
  pub v : ℕ
  pub type : Str
  pub id : Str
  pub name : Str
  pub kind : Str
  pub port : ℕ
  pub fp : Str

abbrev pub empty_beacon : Beacon
empty_beacon = record {
  app = codes "voidbridge";
  v = our_version;
  type = [];
  id = [];
  name = [];
  kind = [];
  port = 0;
  fp = [];
}

-- The beacon that a device sends of itself, and the probe.
abbrev pub beacon_of : Identity → ℕ → Str → Beacon
beacon_of me port fp = record empty_beacon {
  id = me.id;
  name = me.name;
  kind = me.kind;
  port = port;
  fp = fp;
}

abbrev pub probe : Beacon
probe = record empty_beacon { type = codes "probe" }

-- One datagram, `none` if it is no JSON: the manager after it, and the answer. A port below zero
-- is refused as zero is.
module _ (net : Addresses) where
  unfoldable pub on_beacon : ℕ → ℕ → Str → Str → Option Beacon → Manager → Manager × Option Beacon
  on_beacon now port fp from none m = (m, none)
  on_beacon now port fp from (some b) m =
      if not (b.app == codes "voidbridge")
      then (m, none)
      else if b.type == codes "probe"
      then (m, some (beacon_of m.me port fp))
      else if not (b.fp == fp) || ((b.id == m.me.id) || ((b.id == []) || (b.port == 0)))
      then (m, none)
      else (heard now b.id b.name b.kind (net.join_host_port from (decimal64 b.port)) m, none)
