-- ===== src/Node/State.antt =====
-- internal/node/node.go: the state of a node, and the helpers of its handlers.
pub mod Seen
use void_bridge.Base.{
  ℕ, Bool, true, false, not, ◌&&◌, List, [], ◌∷◌, ◌++◌, Option, none, some, Str, str_eq, nat_eq,
  ◌==◌, ltb, leb, if◌then◌else◌, length, filterb, map,
}
use void_bridge.Base.Dict.{lookup, insert, delete}
use void_bridge.Protocol.Message.{Identity, Message, PeerInfo, max_text, max_image}
use void_bridge.Clipboard.{Content, clip_text, clip_image}
use void_bridge.Node.History.{History}

pub record LinkInfo : Type 0 where
  pub peer_id : Str
  pub name : Str
  pub kind : Str
  pub via : Str
  pub addr : Str

pub record Settings : Type 0 where
  pub paused : Bool
  pub skip_sensitive : Bool

-- Links are known by a number, as Go knows them by their address. The clip ids already seen are
-- a map for the test and a list for the order of eviction.
pub record Node : Type 0 where
  pub me : Identity
  pub content_key : Str
  pub settings : Settings
  pub links : List (ℕ × LinkInfo)
  pub remote : List (ℕ × List PeerInfo)
  pub current : Option Message
  pub seen : List (Str × Unit {0})
  pub seen_order : List Str
  pub last_hash : Str
  pub last_seq : ℕ
  pub last_sync : ℕ
  pub history : Option History

-- What a node does to the outside: a message to a link, or a write to the clipboard.
pub data Effect : Type 0 where
  sends : ℕ → Message → Effect
  writes : Content → Effect

abbrev pub seen_limit : ℕ
seen_limit = 4096

unfoldable pub new_node : Identity → Str → Option History → Node
new_node me key hist = record {
  me = me;
  content_key = key;
  settings = record { paused = false; skip_sensitive = true };
  links = [];
  remote = [];
  current = none;
  seen = [];
  seen_order = [];
  last_hash = [];
  last_seq = 0;
  last_sync = 0;
  history = hist;
}

abbrev pub is_seen : Str → Node → Bool
is_seen id n = elim (lookup id n.seen) [ none ↦ false | some _ ↦ true ]

-- Forgets the oldest id if there are too many.
unfoldable pub evict : Node → List Str → Node
evict n [] = n
evict n (oldest ∷ rest) =
    if ltb seen_limit (length n.seen_order)
    then record n { seen = delete oldest n.seen; seen_order = rest }
    else n

abbrev pub noted : Str → Node → Node
noted id n = record n { seen = insert id tt n.seen; seen_order = n.seen_order ++ id ∷ [] }

unfoldable pub mark_seen : Str → Node → Node
unfolding evict
mark_seen id n = if is_seen id n then n else evict (noted id n) (noted id n).seen_order

-- The numbers of the links but for the one that a message came from.
unfoldable pub links_except : Option ℕ → Node → List ℕ
links_except none n = map (λ l. l.0) n.links
links_except (some l) n = filterb (λ j. not (j == l)) (map (λ l. l.0) n.links)

unfoldable pub valid : Content → Bool
valid c =
    if c.type == clip_text
    then not (c.text == []) && leb (length c.text) max_text
    else if c.type == clip_image
    then ltb 0 (length c.image) && leb (length c.image) max_image
    else false

abbrev pub content_of : Message → Str → Str → Content
content_of m text image = record {
  type = m.clip_type;
  text = text;
  image = image;
  mime = m.mime;
  sensitive = false;
}

-- The content of a clip, and whether it can be used.
unfoldable pub content_from : Message → Str → Option Content
unfolding valid
content_from m plain =
    if m.clip_type == clip_text
    then (let c = content_of m plain [] in if valid c then some c else none)
    else if m.clip_type == clip_image
    then (let c = content_of m [] plain in if valid c then some c else none)
    else none

unfoldable pub set_settings : Settings → Node → Node
set_settings s n = record n { settings = s }

-- `AddLink`: a new link gets the current clip.
unfoldable pub add_link : ℕ → LinkInfo → Node → Node × List Effect
add_link l info n = (
  record n { links = insert l info n.links },
  elim n.current [ none ↦ [] | some m ↦ sends l m ∷ [] ],
)

unfoldable pub remove_link : ℕ → Node → Node
remove_link l n = record n { links = delete l n.links; remote = delete l n.remote }

unfoldable pub set_remote_devices : ℕ → List PeerInfo → Node → Node
set_remote_devices l devs n = elim (lookup l n.links) [
  | none ↦ n
  | some _ ↦ record n { remote = insert l devs n.remote }
]
