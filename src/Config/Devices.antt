-- ===== src/Config/Devices.antt =====
-- cmd/voidbridge/transfers.go: the devices of the right-click menu, over internal/config/config.go.
use void_bridge.Base.{
  ℕ, ◌-◌, ◌*◌, ◌≡◌, refl, false, ◌||◌, List, [], ◌∷◌, Option, none, some, Str, str_eq, arith,
  bytes_eq_iff, Bool-cases, inl, inr,
}
use void_bridge.Base.Dict.{lookup, sweep, lookup-insert}
use void_bridge.Config.{
  KnownDevice, Devices, Remembered, remember, is_current, shows_other, is_older, any_older,
  forget_older_than,
}

-- A connected device, as the node lists it.
pub record Device : Type 0 where
  pub id : Str
  pub name : Str
  pub kind : Str

unfoldable pub remember_all : ℕ → List Device → Devices → Remembered
unfolding remember
remember_all now [] known = record { known = known; menu_changed = false; dirty = false }
remember_all now (d ∷ ds) known =
    let r = remember d.id d.name d.kind now known in
    let rest = remember_all now ds r.known in
    record {
      known = rest.known;
      menu_changed = r.menu_changed || rest.menu_changed;
      dirty = r.dirty || rest.dirty;
    }

abbrev pub sixty_days : ℕ
sixty_days = 60 * 24 * 3600

-- `rememberDevices`: the devices, whether the menu is written again, and whether they are saved.
-- The time is later than sixty days after 1970.
unfoldable pub remember_devices : ℕ → List Device → Devices → Remembered
unfolding remember_all forget_older_than
remember_devices now ds known =
    let r = remember_all now ds known in
    let f = forget_older_than (now - sixty_days) r.known in
    record { known = f.0; menu_changed = r.menu_changed || f.1; dirty = r.dirty || f.1 }

-- What the menu shows for a device.
abbrev pub shown : Option KnownDevice → Option Str
shown none = none
shown (some d) = some d.name

other-shown :
    (name : Str) (old : Option KnownDevice) → shows_other name old ≡ false → shown old ≡ some name
other-shown name none h = cc
other-shown name (some d) h = ground (arith, bytes_eq_iff d.name name)

remember-shown :
    (id name kind j : Str) (now : ℕ) (known : Devices)
    → (remember id name kind now known).menu_changed ≡ false
    → shown (lookup j (remember id name kind now known).known) ≡ shown (lookup j known)
unfolding remember
remember-shown id name kind j now known h =
    elim (Bool-cases (is_current name kind now (lookup id known))) [
      | inl e ↦ rw (remember, e) refl
      | inr e ↦
          let new : KnownDevice = record { name = name; kind = kind; last_seen = now } in
          ground (
            arith,
            e,
            h,
            lookup-insert id j new known,
            bytes_eq_iff id j,
            other-shown name (lookup id known),
          )
    ]

remember_all-shown :
    (j : Str) (now : ℕ) (ds : List Device) (known : Devices)
    → (remember_all now ds known).menu_changed ≡ false
    → shown (lookup j (remember_all now ds known).known) ≡ shown (lookup j known)
unfolding remember_all
remember_all-shown j now [] known h = refl
remember_all-shown j now (d ∷ ds) known h = ground (
  arith,
  remember_all-shown j now ds (remember d.id d.name d.kind now known).known,
  remember-shown d.id d.name d.kind j now known,
)

sweep-any_older :
    (cutoff : ℕ) (known : Devices)
    → any_older cutoff known ≡ false
    → sweep (is_older cutoff) known ≡ known
unfolding sweep any_older
sweep-any_older cutoff [] h = refl
sweep-any_older cutoff ((id, d) ∷ known) h = ground (arith, sweep-any_older cutoff known)

-- The menu is written again whenever a name in it changes: if a round over the connected devices
-- does not write it, it shows the same devices under the same names as before, although others
-- may have been seen again and old ones are looked for.
pub remember_devices-shown :
    (j : Str) (now : ℕ) (ds : List Device) (known : Devices)
    → (remember_devices now ds known).menu_changed ≡ false
    → shown (lookup j (remember_devices now ds known).known) ≡ shown (lookup j known)
unfolding remember_devices
remember_devices-shown j now ds known h = ground (
  arith,
  sweep-any_older (now - sixty_days) (remember_all now ds known).known,
  remember_all-shown j now ds known,
)
