-- ===== src/Node/Files/Effects.antt =====
-- What a transfer sends and does: the bytes of its pieces, and what its effects store and answer.
use void_bridge.Base.{
  signed64, plus64, ℕ, ◌+◌, ◌%◌, ◌^◌, ◌<◌, ◌≤◌, ◌≡◌, refl, sym, ap, ◌∙◌, false, List, [], ◌∷◌, ◌++◌,
  Option, none, some, Str, pos, str_eq, int_eq, ◌==◌, if◌then◌else◌, length, arith, int_lt,
  append_assoc,
}
use void_bridge.Protocol.Message.{Message}
use void_bridge.Protocol.Seal.{aead_nonce_size}
use void_bridge.Node.Files.{FileEffect, begins, writes, commits, aborts, received, progress, sends}
use void_bridge.Node.Files.Commit.{wrote, contents}
use void_bridge.Node.Files.Sender.{
  Pieces, last, piece, broken, Answer, Sent, sent, failed, Progress, ◌>>=◌,
}

abbrev pub content : Pieces → Str
content (last b) = b
content (piece b rest) = b ++ content rest
content (broken b e) = b

-- The file was read to its end.
abbrev pub IsComplete : Pieces → Type 0
IsComplete (last b) = Unit {0}
IsComplete (piece b rest) = IsComplete rest
IsComplete (broken b e) = ⊥

-- Nothing stops the sender: it is not cancelled, the link takes the message, and there was no
-- answer before.
pub record IsCalm (a : Answer) : Type 0 where
  pub goes_on : a.cancelled ≡ none
  pub unanswered : a.ack ≡ none
  pub taken : a.send_error ≡ none
  pub nonce_size : length a.nonce ≡ aead_nonce_size

abbrev pub stored_now : Str → Str → Option Str → List Str
stored_now k id w =
    if k == id then elim w as (λ _. List Str) [ none ↦ [] | some b ↦ b ∷ [] ] else []

-- The contents of the files that the writer of `id` stores.
abbrev pub stored : Str → List FileEffect → Option Str → List Str
stored id [] w = []
stored id (commits k ∷ es) w = stored_now k id w ++ stored id es (if k == id then none else w)
stored id (e ∷ es) w = stored id es (wrote id e w)

-- The errors in the answers that are sent about `id`.
abbrev pub acked : Str → List FileEffect → List Str
acked id [] = []
acked id (sends l m ∷ es) = (if m.id == id then m.error ∷ [] else []) ++ acked id es
acked id (_ ∷ es) = acked id es

pub total-fits : (a b n : ℕ) → n < 2 ^ 63 → a + b ≤ n → signed64 (plus64 a b) ≡ pos (a + b)
total-fits a b n small fits = ground arith

pub mod-fits : (a n : ℕ) → n < 2 ^ 63 → a ≤ n → a % 2 ^ 64 ≡ a
mod-fits a n small fits = ground arith

pub signed-small : (a : ℕ) → a < 2 ^ 63 → signed64 a ≡ pos a
signed-small a small = ground arith

pub int_lt-pos : (n a : ℕ) → a ≤ n → int_lt (pos n) (pos a) ≡ false
unfolding int_lt
int_lt-pos n a h = ground arith

pub stored-append :
    (id : Str) (es es' : List FileEffect) (w : Option Str)
    → stored id (es ++ es') w ≡ stored id es w ++ stored id es' (contents id es w)
stored-append id [] es' w = refl
stored-append id (begins k m s ∷ es) es' w = stored-append id es es' (wrote id (begins k m s) w)
stored-append id (writes k b ∷ es) es' w = stored-append id es es' (wrote id (writes k b) w)
stored-append id (commits k ∷ es) es' w =
    rw (stored-append id es es' (if k == id then none else w)) (
      sym (
        append_assoc (stored_now k id w) (stored id es (if k == id then none else w))
          (stored id es' (contents id es (if k == id then none else w)))))
stored-append id (aborts k ∷ es) es' w = stored-append id es es' (wrote id (aborts k) w)
stored-append id (received m s e ∷ es) es' w = stored-append id es es' w
stored-append id (progress k m s n ∷ es) es' w = stored-append id es es' w
stored-append id (sends l m ∷ es) es' w = stored-append id es es' w

pub acked-append :
    (id : Str) (es es' : List FileEffect) → acked id (es ++ es') ≡ acked id es ++ acked id es'
acked-append id [] es' = refl
acked-append id (sends l m ∷ es) es' =
    rw (acked-append id es es')
      (sym (append_assoc (if m.id == id then m.error ∷ [] else []) (acked id es) (acked id es')))
acked-append id (begins k m s ∷ es) es' = acked-append id es es'
acked-append id (writes k b ∷ es) es' = acked-append id es es'
acked-append id (commits k ∷ es) es' = acked-append id es es'
acked-append id (aborts k ∷ es) es' = acked-append id es es'
acked-append id (received m s e ∷ es) es' = acked-append id es es'
acked-append id (progress k m s n ∷ es) es' = acked-append id es es'

pub sent-bind {ℓ κ} :
    {A : Type ℓ} {B : Type κ} (k : Sent A) (f : A → Sent B) (ms ms' : List Message) (a : A) (b : B)
    → k ≡ sent ms a
    → f a ≡ sent ms' b
    → (k >>= f) ≡ sent (ms ++ ms') b
sent-bind {B} k f ms ms' a b e g =
    ap (λ z. z >>= f) e
    ∙ ap
        (λ z. elim z as (λ _. Sent B) [
          | sent ns c ↦ sent (ms ++ ns) c
          | failed ns x ↦ failed (ms ++ ns) x
        ])
        g

abbrev pub start : Progress
start = record { seq = 0; total = 0; summed = [] }
