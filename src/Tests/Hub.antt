-- ===== src/Tests/Hub.antt =====
-- Two users at a hub, one of them with two devices.
use void_bridge.Base.{
  ℕ, ◌≡◌, refl, false, [], ◌∷◌, some, Str, pos, codes, nat_beq, bytes_eq, str_eq, if◌then◌else◌,
}
use void_bridge.Base.Dict.{lookup, insert, IsDistinct}
use void_bridge.Protocol.Message.{Message, MsgType, blank, newer}
use void_bridge.Server.Hub.{
  Conn, Hub, empty_hub, connect, step, connects, receives, disconnects, failed, lost, route_target,
  first_of, pass_clip, sends,
}
use void_bridge.Server.Hub.Apart
use void_bridge.Server.Hub.Notice
use void_bridge.Server.Hub.Relay
use void_bridge.Node.Clips.Order.{Advances}

program : Unit {0}
unfolding empty_hub lookup insert connect step route_target first_of bytes_eq
program = tt

abbrev device : ℕ → Str → Str → Conn
device n user id = record {
  handle = n;
  user = user;
  device_id = id;
  device_name = id;
  device_kind = codes "linux";
  token = codes "t";
}

abbrev ann_phone : Conn
ann_phone = device 1 (codes "ann") (codes "ph")

abbrev ann_laptop : Conn
ann_laptop = device 2 (codes "ann") (codes "lt")

abbrev bob_phone : Conn
bob_phone = device 3 (codes "bob") (codes "ph")

abbrev owner : ℕ → Str
owner n = if nat_beq n 3 then codes "bob" else codes "ann"

empty_hub-IsApart : Apart.IsApart owner empty_hub
unfolding program
empty_hub-IsApart = record { accounts_apart = λ u. tt; inflight_apart = tt }

abbrev busy : Hub
busy = (step (connects bob_phone) (step (connects ann_phone) empty_hub).0).0

busy-IsApart : Apart.IsApart owner busy
busy-IsApart =
    (Apart.step-IsApart owner (connects bob_phone) (step (connects ann_phone) empty_hub).0
      (Apart.step-IsApart owner (connects ann_phone) empty_hub empty_hub-IsApart refl).0 refl).0

step-IsApart_example :
    Apart.IsApart owner (step (connects ann_laptop) busy).0
    × Apart.Within owner (codes "ann") (step (connects ann_laptop) busy).1
step-IsApart_example = Apart.step-IsApart owner (connects ann_laptop) busy busy-IsApart refl

abbrev both : Hub
both = (step (connects ann_laptop) busy).0

abbrev announced : Message
announced = record (blank MsgType.file_start) {
  id = codes "f1";
  origin = codes "lt";
  to = codes "ph";
}

both-IsDistinct : IsDistinct both.inflight
unfolding program
both-IsDistinct = tt

both-target : route_target ann_laptop announced both ≡ some ann_phone
unfolding program
both-target = refl

disconnect_told_example :
    Notice.Has
      (failed ann_laptop (codes "f1") (codes "lt") lost)
      (step (disconnects ann_phone) (
        Notice.happen
          (disconnects bob_phone ∷ [])
          (step (receives false ann_laptop announced) both).0)).1
unfolding program
disconnect_told_example =
    Notice.disconnect_told false ann_laptop ann_phone announced (disconnects bob_phone ∷ []) both
      both-IsDistinct refl refl both-target (refl, tt)

abbrev copied_text : Message
copied_text = record (blank MsgType.clip) { id = codes "a1"; origin = codes "ph"; time = pos 5 }

connect_delivers_example :
    let h' = Notice.happen (disconnects ann_phone ∷ []) (pass_clip ann_phone copied_text busy).0 in
    (x : Message) × Advances (some copied_text) (some x)
    × Notice.Has (sends ann_laptop x) (connect ann_laptop h').1
connect_delivers_example =
    Relay.connect_delivers ann_phone ann_laptop copied_text (disconnects ann_phone ∷ []) busy
      (unfold newer program in refl) refl
