-- ===== src/Desktop/Transfers.antt =====
-- cmd/voidbridge/transfers.go: the files that are being sent and received, for the user. An entry
-- is known by a number, as Go knows it by its address.
use void_bridge.Base.{
  ℕ, suc, ◌≡◌, ◌≤◌, refl, ap, Bool, true, false, ◌&&◌, ◌||◌, List, [], ◌∷◌, ◌++◌, Option, none,
  some, Str, str_eq, nat_eq, int_eq, ℤ, pos, ◌==◌, if◌then◌else◌, arith, length, take, length-take,
  codes, Option-cases, inl, inr,
}

pub data Status : Type 0 where
  active done failed : Status

pub record Transfer : Type 0 where
  pub number : ℕ
  pub id : Str
  pub incoming : Bool
  pub name : Str
  pub device : Str
  pub size : ℤ
  pub bytes_done : ℤ
  pub status : Status
  pub error : Str
  pub path : Str
  pub time : ℤ

abbrev pub most : ℕ
most = 30

-- `add`: the newest first, and at most thirty.
unfoldable pub add : ℤ → Transfer → List Transfer → List Transfer
add now tr list = take most (record tr { time = now } ∷ list)

-- `update`, of the entry with a number, if it is still in the list.
unfoldable pub update : ℕ → (Transfer → Transfer) → List Transfer → List Transfer
update n f [] = []
update n f (t ∷ ts) = (if t.number == n then f t else t) ∷ update n f ts

-- The first entry that passes a test, by its number.
unfoldable pub find_by : (Transfer → Bool) → List Transfer → Option ℕ
find_by p [] = none
find_by p (t ∷ ts) = if p t then some t.number else find_by p ts

unfoldable pub find : Str → List Transfer → Option ℕ
unfolding find_by
find id ts = find_by (λ t. t.id == id) ts

abbrev pub is_active : Status → Bool
is_active Status.active = true
is_active _ = false

unfoldable pub busy : List Transfer → Bool
busy [] = false
busy (t ∷ ts) = is_active t.status || busy ts

-- A file that arrives, as the receiver reports it.
pub record Arrival : Type 0 where
  pub name : Str
  pub device : Str
  pub size : ℤ

abbrev pub incoming_id : Str → Str
incoming_id id = codes "in-" ++ id

abbrev pub entry : ℕ → Str → Arrival → ℤ → ℤ → Transfer
entry number id a bytes_done now = record {
  number = number;
  id = incoming_id id;
  incoming = true;
  name = a.name;
  device = a.device;
  size = a.size;
  bytes_done = bytes_done;
  status = Status.active;
  error = [];
  path = [];
  time = now;
}

-- `OnProgress`; `number` is that of an entry that is new.
unfoldable pub on_progress : ℕ → ℤ → Str → Arrival → ℤ → List Transfer → List Transfer
unfolding find add update
on_progress number now id a bytes_done ts = elim (find (incoming_id id) ts) [
  | none ↦ add now (entry number id a bytes_done now) ts
  | some n ↦ update n (λ t. record t { bytes_done = bytes_done }) ts
]

abbrev pub is_awaited : Arrival → Transfer → Bool
is_awaited a t =
    t.incoming && (is_active t.status && ((t.name == a.name) && (t.device == a.device)))

-- How a transfer ends: with an error, or stored at a path with its last part.
pub data Ending : Type 0 where
  ends_badly : Str → Ending
  stored_at : (path base : Str) → Ending

abbrev pub ended : Ending → Transfer → Transfer
ended (ends_badly error) t = record t { status = Status.failed; error = error }
ended (stored_at path base) t = record t {
  status = Status.done;
  bytes_done = t.size;
  path = path;
  name = base;
}

-- `OnReceived`, up to the clipboard.
unfoldable pub on_received : ℕ → ℤ → Str → Arrival → Ending → List Transfer → List Transfer
unfolding find_by add update
on_received number now new_id a e ts = elim (find_by (is_awaited a) ts) [
  | none ↦ update number (ended e) (add now (entry number new_id a (pos 0) now) ts)
  | some n ↦ update n (ended e) ts
]

pub data Event : Type 0 where
  adds : ℤ → Transfer → Event
  updates : ℕ → (Transfer → Transfer) → Event
  progresses : ℕ → ℤ → Str → Arrival → ℤ → Event
  receives : ℕ → ℤ → Str → Arrival → Ending → Event

unfoldable pub step : Event → List Transfer → List Transfer
unfolding add update on_progress on_received
step (adds now x) = add now x
step (updates n f) = update n f
step (progresses number now id a bytes_done) = on_progress number now id a bytes_done
step (receives number now new_id a e) = on_received number now new_id a e

unfoldable pub run : List Event → List Transfer → List Transfer
unfolding step
run [] ts = ts
run (e ∷ es) ts = run es (step e ts)

length-update :
    (n : ℕ) (f : Transfer → Transfer) (ts : List Transfer) → length (update n f ts) ≡ length ts
unfolding update
length-update n f [] = refl
length-update n f (t ∷ ts) = ap suc (length-update n f ts)

length-add : (now : ℤ) (tr : Transfer) (ts : List Transfer) → length (add now tr ts) ≤ most
unfolding add
length-add now tr ts = omega (arith, length-take most (record tr { time = now } ∷ ts))

step-length : (e : Event) (ts : List Transfer) → length ts ≤ most → length (step e ts) ≤ most
unfolding step on_progress on_received
step-length (adds now x) ts h = length-add now x ts
step-length (updates n f) ts h = omega (arith, length-update n f ts)
step-length (progresses number now id a b) ts h = elim (Option-cases (find (incoming_id id) ts)) [
  | inl e ↦ ground (arith, e, length-add now (entry number id a b now) ts)
  | inr (n, e) ↦ ground (arith, e, length-update n (λ t. record t { bytes_done = b }) ts)
]
step-length (receives number now new_id a e) ts h =
    elim (Option-cases (find_by (is_awaited a) ts)) [
      | inl f ↦
          let new = entry number new_id a (pos 0) now in
          ground (arith, f, length-update number (ended e) (add now new ts), length-add now new ts)
      | inr (n, f) ↦ ground (arith, f, length-update n (ended e) ts)
    ]

-- The list never grows past thirty.
run-length : (es : List Event) (ts : List Transfer) → length ts ≤ most → length (run es ts) ≤ most
unfolding run
run-length [] ts h = h
run-length (e ∷ es) ts h = run-length es (step e ts) (step-length e ts h)
