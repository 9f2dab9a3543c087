-- ===== src/Server/Hub.antt =====
-- internal/server/server.go: the hub that passes messages between the devices of an account. A
-- handler's critical section is a function from the hub to the hub and to what it sends. Coming and
-- going are one function each, with the broadcast of the devices that follows the locked part.
pub mod Apart
pub mod Kick
pub mod Notice
pub mod Relay
use void_bridge.Base.{
  ℕ, Bool, true, false, not, ◌&&◌, ◌||◌, List, [], ◌∷◌, ◌++◌, Option, none, some, Str, str_eq,
  nat_eq, ◌==◌, map, if◌then◌else◌, filterb, codes,
}
use void_bridge.Base.Dict.{lookup, insert, delete, sweep}
use void_bridge.Protocol.Message.{Message, MsgType, blank, newer, is_file}

-- A connection; Go knows it by its address, here by a number.
pub record Conn : Type 0 where
  pub handle : ℕ
  pub user : Str
  pub device_id : Str
  pub device_name : Str
  pub device_kind : Str
  pub token : Str

pub record Account : Type 0 where
  pub conns : List Conn
  pub current : Option Message

pub record Transfer : Type 0 where
  pub from : Conn
  pub to : Conn
  pub id : Str
  pub origin : Str

-- File transfers that are passed on but not yet acknowledged stand under their ids.
pub record Hub : Type 0 where
  pub accounts : List (Str × Account)
  pub inflight : List (Str × Transfer)

-- What the hub does to a connection.
pub data Effect : Type 0 where
  sends : Conn → Message → Effect
  cancels : Conn → Effect

abbrev pub target_of : Effect → Conn
target_of (sends c m) = c
target_of (cancels c) = c

abbrev pub is_conn : Conn → Conn → Bool
is_conn c o = o.handle == c.handle

unfoldable pub empty_hub : Hub
empty_hub = record { accounts = []; inflight = [] }

abbrev pub no_account : Account
no_account = record { conns = []; current = none }

-- `acct`: the account of a user, a new one if there is none.
abbrev pub acct : Str → Hub → Account
acct user h = elim (lookup user h.accounts) [ none ↦ no_account | some a ↦ a ]

abbrev pub with_account : Str → Account → Hub → Hub
with_account user a h = record h { accounts = insert user a h.accounts }

unfoldable pub online : Str → Hub → List Str
online user h = map (λ (c : Conn). c.device_id) (acct user h).conns

abbrev pub all_cancel : List Conn → List Effect
all_cancel cs = map (λ c. cancels c) cs

abbrev pub all_send : Message → List Conn → List Effect
all_send m cs = map (λ c. sends c m) cs

unfoldable pub kick : Str → Str → Hub → List Effect
kick user device h = all_cancel (filterb (λ c. c.device_id == device) (acct user h).conns)

unfoldable pub kick_all : Str → Hub → List Effect
kick_all user h = all_cancel (acct user h).conns

-- `devicesLocked`: the devices of an account.
unfoldable pub devices_message : Account → Message
devices_message a = record (blank MsgType.devices) {
  peers =
      map
        (λ (c : Conn). record {
          id = c.device_id;
          name = c.device_name;
          kind = c.device_kind;
          addrs = [];
        })
        a.conns;
}

unfoldable pub broadcast_devices : Str → Hub → List Effect
broadcast_devices user h = elim (lookup user h.accounts) [
  | none ↦ []
  | some a ↦ all_send (devices_message a) a.conns
]

abbrev pub failed : Conn → Str → Str → Str → Effect
failed from id origin reason =
    sends from (record (blank MsgType.file_ack) { id = id; to = origin; error = reason })

abbrev pub lost : Str
lost = codes "lost the connection to that device"

abbrev pub not_connected : Str
not_connected = codes "that device isn't connected to the server right now"

-- `sync` up to its read loop: stale connections of the device are dropped, the new one is added
-- and told the devices and the current clip.
unfoldable pub connect : Conn → Hub → Hub × List Effect
connect c h =
    let a = acct c.user h in
    let h' = with_account c.user (record a { conns = c ∷ a.conns }) h in
    (
      h',
      all_cancel (filterb (λ o. o.device_id == c.device_id) a.conns)
          ++ (broadcast_devices c.user h'
              ++ elim a.current [ none ↦ [] | some m ↦ sends c m ∷ [] ]),
    )

abbrev pub is_orphan : Conn → Transfer → Bool
is_orphan c t = is_conn c t.to

abbrev pub involves : Conn → Transfer → Bool
involves c t = is_conn c t.to || is_conn c t.from

abbrev pub transfers : Hub → List Transfer
transfers h = map (λ e. e.1) h.inflight

-- `sync` after its read loop.
unfoldable pub disconnect : Conn → Hub → Hub × List Effect
disconnect c h =
    let a = acct c.user h in
    let h' = record h {
      accounts =
          insert c.user (record a { conns = filterb (λ o. not (is_conn c o)) a.conns }) h.accounts;
      inflight = sweep (involves c) h.inflight;
    } in
    (
      h',
      map (λ (t : Transfer). failed t.from t.id t.origin lost) (filterb (is_orphan c) (transfers h))
          ++ broadcast_devices c.user h',
    )

unfoldable pub first_of : (Conn → Bool) → List Conn → Option Conn
first_of p [] = none
first_of p (c ∷ cs) = if p c then some c else first_of p cs

-- The connection that a file message goes to.
unfoldable pub route_target : Conn → Message → Hub → Option Conn
route_target from m h =
    first_of (λ c. (c.device_id == m.to) && not (is_conn from c)) (acct from.user h).conns

abbrev pub is_ack : MsgType → Bool
is_ack MsgType.file_ack = true
is_ack _ = false

abbrev pub is_start : MsgType → Bool
is_start MsgType.file_start = true
is_start _ = false

abbrev pub transfer_of : Conn → Conn → Message → Transfer
transfer_of from to m = record { from = from; to = to; id = m.id; origin = m.origin }

-- The transfers in flight after a file message.
unfoldable pub track : Conn → Message → Option Conn → Hub → Hub
track from m target h =
    if is_ack m.type then record h { inflight = delete m.id h.inflight } else elim target [
      | none ↦ h
      | some c ↦
          if is_start m.type
          then record h { inflight = insert m.id (transfer_of from c m) h.inflight }
          else h
    ]

-- A failure is told to the sender, but for acknowledgements.
abbrev pub told : Conn → Message → Str → List Effect
told from m reason = if is_ack m.type then [] else failed from m.id m.origin reason ∷ []

-- `route`; the first argument says whether the write to the target fails.
unfoldable pub route : Bool → Conn → Message → Hub → Hub × List Effect
route fails from m h =
    let target = route_target from m h in
    (
      track from m target h,
      elim target [
        | none ↦ told from m not_connected
        | some c ↦ sends c m ∷ (if fails then cancels c ∷ told from m lost else [])
      ],
    )

abbrev pub is_stale : Message → Option Message → Bool
is_stale m cur =
    not (newer m cur) || elim cur as (λ _. Bool) [ none ↦ false | some x ↦ x.id == m.id ]

-- A clip that is newer than the account's and not the same goes to the other devices.
unfoldable pub pass_clip : Conn → Message → Hub → Hub × List Effect
pass_clip c m h =
    let a = acct c.user h in
    if is_stale m a.current then (with_account c.user a h, []) else (
      with_account c.user (record a { current = some m }) h,
      all_send m (filterb (λ o. not (is_conn c o)) a.conns),
    )

abbrev pub is_clip : MsgType → Bool
is_clip MsgType.clip = true
is_clip _ = false

-- One round of `readLoop` with a decoded message.
unfoldable pub receive : Bool → Conn → Message → Hub → Hub × List Effect
receive fails c m h =
    if is_file m.type && not (m.to == [])
    then route fails c m h
    else if is_clip m.type
    then pass_clip c m h
    else (h, [])

-- What happens at the hub, in the order of its lock.
pub data Event : Type 0 where
  connects : Conn → Event
  disconnects : Conn → Event
  receives : Bool → Conn → Message → Event

unfoldable pub step : Event → Hub → Hub × List Effect
step (connects c) h = connect c h
step (disconnects c) h = disconnect c h
step (receives fails c m) h = receive fails c m h

abbrev pub event_conn : Event → Conn
event_conn (connects c) = c
event_conn (disconnects c) = c
event_conn (receives fails c m) = c
