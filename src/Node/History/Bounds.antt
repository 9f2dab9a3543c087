-- ===== src/Node/History/Bounds.antt =====
-- What `add` keeps of the history.
use void_bridge.Base.{
  ℕ, ◌+◌, ◌≤◌, ◌<◌, ◌≡◌, ◌≢◌, Bool, List, [], ◌∷◌, leb, ltb, length, All, ◌⊎◌, leb, ltb,
}
use void_bridge.Protocol.Message.{Message}
use void_bridge.Protocol.Crypto.{Hashes}
use void_bridge.Clipboard.{Content, content_hash, content_bytes}
use void_bridge.Node.History.{History, HistoryItem, item_of, drop_same, cut}

-- The bytes of all items.
abbrev pub total_bytes : List HistoryItem → ℕ
total_bytes [] = 0
total_bytes (it ∷ its) = length (content_bytes it.content) + total_bytes its

-- No two items have the same content.
abbrev pub Differ : Hashes → List HistoryItem → Type 0
Differ h [] = Unit {0}
Differ h (it ∷ its) =
    All (λ other. content_hash h other.content ≢ content_hash h it.content) its × Differ h its

pub record IsBounded (h : Hashes) (hist : History) : Type 0 where
  pub few : length hist.items ≤ hist.max_items
  pub small : total_bytes hist.items ≤ hist.max_bytes
  pub differ : Differ h hist.items

module _ (h : Hashes) where
  -- What the cut leaves off: nothing, or a list whose first item has no room.
  abbrev Full : ℕ → ℕ → ℕ → ℕ → List HistoryItem → List HistoryItem → Type 0
  Full mi mb i t kept lost =
      (lost ≡ [])
      ⊎ ((it : HistoryItem) × (rest : List HistoryItem) × (lost ≡ it ∷ rest)
          × ((mi ≤ i + length kept)
              ⊎ (mb < t + total_bytes kept + length (content_bytes it.content))))

  -- What `add` makes of a history that has room for the item.
  added : History → Message → Content → Bool → List HistoryItem
  added hist m c local =
      item_of m c local
      ∷ cut hist.max_items hist.max_bytes 1 (length (content_bytes c))
          (drop_same h (content_hash h c) hist.items)
