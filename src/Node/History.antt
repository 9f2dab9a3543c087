-- ===== src/Node/History.antt =====
-- internal/node/history.go: recent clips, bounded by their count and their bytes.
pub mod Bounds
use void_bridge.Base.{
  ℕ, ◌+◌, ◌*◌, ◌^◌, Bool, true, ◌||◌, List, [], ◌∷◌, Option, none, some, Str, ℤ, str_eq, ◌==◌, ltb,
  leb, if◌then◌else◌, length,
}
use void_bridge.Protocol.Message.{Message}
use void_bridge.Protocol.Crypto.{Hashes}
use void_bridge.Clipboard.{Content, content_hash, content_bytes}

pub record HistoryItem : Type 0 where
  pub id : Str
  pub time : ℤ
  pub origin : Str
  pub origin_name : Str
  pub is_local : Bool
  pub content : Content

pub record History : Type 0 where
  pub items : List HistoryItem
  pub max_items : ℕ
  pub max_bytes : ℕ
  pub enabled : Bool

unfoldable pub new_history : History
new_history = record { items = []; max_items = 50; max_bytes = 150 * 2 ^ 20; enabled = true }

-- The loop that drops the first item with the same content.
unfoldable pub drop_same : Hashes → Str → List HistoryItem → List HistoryItem
drop_same h hash [] = []
drop_same h hash (it ∷ its) =
    if content_hash h it.content == hash then its else it ∷ drop_same h hash its

-- The loop that cuts the list at the first item past a bound; `i` and `total` are its variables.
unfoldable pub cut : ℕ → ℕ → ℕ → ℕ → List HistoryItem → List HistoryItem
cut max_items max_bytes i total [] = []
cut max_items max_bytes i total (it ∷ its) =
    let total' = total + length (content_bytes it.content) in
    if leb max_items i || ltb max_bytes total'
    then []
    else it ∷ cut max_items max_bytes (i + 1) total' its

abbrev pub item_of : Message → Content → Bool → HistoryItem
item_of m c local = record {
  id = m.id;
  time = m.time;
  origin = m.origin;
  origin_name = m.origin_name;
  is_local = local;
  content = c;
}

unfoldable pub add : Hashes → History → Message → Content → Bool → History
unfolding drop_same cut
add h hist m c local =
    if hist.enabled
    then record hist {
      items =
          cut hist.max_items hist.max_bytes 0 0
            (item_of m c local ∷ drop_same h (content_hash h c) hist.items);
    }
    else hist

unfoldable pub get_from : Str → List HistoryItem → Option HistoryItem
get_from id [] = none
get_from id (it ∷ its) = if it.id == id then some it else get_from id its

-- `Get`: the newest item with the id.
unfoldable pub get : History → Str → Option HistoryItem
unfolding get_from
get hist id = get_from id hist.items

unfoldable pub clear : History → History
clear hist = record hist { items = [] }

unfoldable pub set_enabled : History → Bool → History
set_enabled hist on = record hist { enabled = on; items = if on then hist.items else [] }
