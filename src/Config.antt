-- ===== src/Config.antt =====
-- internal/config/config.go: the settings of the desktop app. The settings directory, JSON, base64
-- and the protection of the key are parameters; times are seconds.
pub mod Devices
use void_bridge.Base.{
  ℕ, ◌+◌, ◌-◌, ◌≡◌, ◌≤◌, ◌<◌, refl, sym, ap, ◌∙◌, Bool, true, false, not, ◌&&◌, ◌||◌, List, [], ◌∷◌,
  ◌++◌, Option, none, some, Str, str_eq, nat_eq, ◌==◌, ltb, if◌then◌else◌, arith, length, codes,
  bytes_eq_iff, Bool-cases, inl, inr, eq_refl,
}
use void_bridge.Base.Dict.{
  lookup, insert, delete, sweep, IsDistinct, lookup-insert, lookup-sweep, insert-IsDistinct,
  unswept,
}

pub record KnownDevice : Type 0 where
  pub name : Str
  pub kind : Str
  pub last_seen : ℕ

pub data Mode : Type 0 where
  no_group by_code by_account : Mode

pub record Config : Type 0 where
  pub device_id : Str
  pub device_name : Str
  pub mode : Mode
  pub code : Str
  pub master_key : Str
  pub server : Str
  pub username : Str
  pub token : Str
  pub admin : Bool
  pub direct : Bool
  pub tailscale : Bool
  pub manual : List Str
  pub paused : Bool
  pub skip_sensitive : Bool
  pub history : Bool
  pub port : ℕ
  pub receive_dir : Str
  pub hide_context_menu : Bool
  pub no_clip_received : Bool
  pub known : List (Str × KnownDevice)
  pub no_auto_update : Bool

-- What `Load` starts from.
abbrev pub defaults : Config
defaults = record {
  device_id = [];
  device_name = [];
  mode = no_group;
  code = [];
  master_key = [];
  server = [];
  username = [];
  token = [];
  admin = false;
  direct = true;
  tailscale = true;
  manual = [];
  paused = false;
  skip_sensitive = true;
  history = true;
  port = 0;
  receive_dir = [];
  hide_context_menu = false;
  no_clip_received = false;
  known = [];
  no_auto_update = false;
}

-- What reading the file of the settings gives.
pub data FileRead : Type 0 where
  missing unreadable : FileRead
  content : Str → FileRead

abbrev pub filled : Str → Config → Config
filled new_id c = record c {
  device_id = if c.device_id == [] then codes "pc-" ++ new_id else c.device_id;
  port = if c.port == 0 then 47829 else c.port;
}

-- `Load`: the settings, if they can be read, and whether they are saved at once. `parse` reads
-- JSON over the settings that are there.
unfoldable pub load : (Str → Config → Option Config) → Str → FileRead → Option (Config × Bool)
load parse new_id missing = some (filled new_id defaults, true)
load parse new_id unreadable = some (filled new_id defaults, false)
load parse new_id (content bytes) = elim (parse bytes defaults) [
  | none ↦ none
  | some c ↦ some (filled new_id c, false)
]

unfoldable pub receive_folder : Option Str → (Str → Str) → Config → Str
receive_folder home in_downloads c =
    if c.receive_dir == [] then elim home [ none ↦ [] | some h ↦ in_downloads h ] else c.receive_dir

abbrev pub is_grouped : Mode → Bool
is_grouped Mode.no_group = false
is_grouped _ = true

abbrev pub of_size_32 : Option Str → Option Str
of_size_32 none = none
of_size_32 (some master) = if length master == 32 then some master else none

-- `Keys`: the master key that the keys are made of, if there is one.
unfoldable pub master_key : (decode64 unprotect : Str → Option Str) → Config → Option Str
master_key decode64 unprotect c =
    if not (is_grouped c.mode) || (c.master_key == [])
    then none
    else elim (decode64 c.master_key) [ none ↦ none | some raw ↦ of_size_32 (unprotect raw) ]

unfoldable pub set_master : (Str → Str) → Option Str → Config → Option Config
set_master encode64 none c = none
set_master encode64 (some p) c = some (record c { master_key = encode64 p })

unfoldable pub leave : Config → Config
leave c = record c {
  mode = no_group;
  code = [];
  master_key = [];
  server = [];
  username = [];
  token = [];
  admin = false;
}

abbrev pub Devices : Type 0
Devices = List (Str × KnownDevice)

abbrev pub is_current : Str → Str → ℕ → Option KnownDevice → Bool
is_current name kind now none = false
is_current name kind now (some old) =
    (old.name == name) && ((old.kind == kind) && ltb (now - old.last_seen) 3600)

abbrev pub shows_other : Str → Option KnownDevice → Bool
shows_other name none = true
shows_other name (some old) = not (old.name == name)

pub record Remembered : Type 0 where
  pub known : Devices
  pub menu_changed : Bool
  pub dirty : Bool

-- `Remember`, on the devices. A clock that went back makes the difference negative, which is below
-- an hour, as 0 is.
unfoldable pub remember : Str → Str → Str → ℕ → Devices → Remembered
remember id name kind now known =
    if is_current name kind now (lookup id known)
    then record { known = known; menu_changed = false; dirty = false }
    else record {
      known = insert id (record { name = name; kind = kind; last_seen = now }) known;
      menu_changed = shows_other name (lookup id known);
      dirty = true;
    }

abbrev pub is_older : ℕ → KnownDevice → Bool
is_older cutoff d = ltb d.last_seen cutoff

unfoldable pub any_older : ℕ → Devices → Bool
any_older cutoff [] = false
any_older cutoff ((id, d) ∷ known) = is_older cutoff d || any_older cutoff known

unfoldable pub forget_older_than : ℕ → Devices → Devices × Bool
unfolding any_older
forget_older_than cutoff known = (sweep (is_older cutoff) known, any_older cutoff known)

unfoldable pub forget : Str → Devices → Devices
forget id known = delete id known
