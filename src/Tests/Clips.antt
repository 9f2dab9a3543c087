-- ===== src/Tests/Clips.antt =====
-- Clips between two devices of a group, on a key and two texts.
use void_bridge.Base.{
  All, ℕ, nat_eq, ◌≡◌, refl, true, false, List, [], ◌∷◌, none, some, arith, inl, inr, pos, codes,
  ◌↔◌, sym, ◌∙◌, str_eq, ◌==◌, if◌then◌else◌, format_int, decimal, take, drop, bytes_eq, int_beq,
  int_lt, add_one64,
}
use void_bridge.Base.Dict.{lookup}
use void_bridge.Protocol.Message.{
  Identity, Message, MsgType, blank, newer, newer_than, str_lt, is_file,
}
use void_bridge.Protocol.Seal.{
  seal_clip, open_clip, seal_file, open_file, clip_aad, file_aad, type_name,
}
use void_bridge.Clipboard.{clip_text, content_bytes, content_hash}
use void_bridge.Node.State.{
  LinkInfo, Node, new_node, mark_seen, links_except, valid, content_from, is_seen,
}
use void_bridge.Node.State.Seen
use void_bridge.Node.History.{new_history}
use void_bridge.Node.History.Bounds
use void_bridge.Node.Clips.{Outside, begin_copy, apply_clip, commit_copy, local_copy, send_all}
use void_bridge.Node.Clips.Order
use void_bridge.Node.Clips.Newest
use void_bridge.Node.Clips.Newest.{newest}
use void_bridge.Node.Clips.Converge
use void_bridge.Node.Clips.Converge.{Arrival, Genuine, Fresh, messages, handle_all}
use void_bridge.Node.Clips.Race
use void_bridge.Tests.Cipher.{toy, plain_hashes, strip, strip_prefix}
use void_bridge.Tests.Seal.{key, nonce, hi, yo, first_clip, second_clip, opens_first}

program : Unit {0}
unfolding seal_clip open_clip seal_file open_file clip_aad file_aad type_name format_int decimal
    take drop strip strip_prefix content_bytes content_hash new_node valid content_from lookup newer
    newer_than str_lt begin_copy is_file bytes_eq int_beq int_lt add_one64 new_history
program = tt

abbrev phone : Identity
phone = record { id = codes "ph"; name = codes "phone"; kind = codes "android" }

abbrev laptop : Identity
laptop = record { id = codes "lt"; name = codes "laptop"; kind = codes "linux" }

abbrev fresh : Node
fresh = new_node phone key none

abbrev other : Node
other = new_node laptop key none

abbrev calm : Outside
calm = record { now = 9; write_fails = false; seq_after = some 4 }

abbrev first_arrival : Arrival
first_arrival = record { outside = calm; link = 0; message = first_clip }

abbrev second_arrival : Arrival
second_arrival = record { outside = calm; link = 1; message = second_clip }

abbrev in_order : List Arrival
in_order = first_arrival ∷ second_arrival ∷ []

abbrev shuffled : List Arrival
shuffled = second_arrival ∷ first_arrival ∷ second_arrival ∷ []

in_order-Genuine : (m : Message) → Newest.In m (messages in_order) → Genuine toy key m
unfolding program
in_order-Genuine m (inl e) =
    rw e
      (record { clip = refl; plain = codes "hi"; content = hi; opens = opens_first; usable = refl })
in_order-Genuine m (inr (inl e)) =
    rw e (record { clip = refl; plain = codes "yo"; content = yo; opens = refl; usable = refl })
in_order-Genuine m (inr (inr e)) = absurd e

in_order_unique :
    (a b : Message)
    → Newest.In a (messages in_order)
    → Newest.In b (messages in_order)
    → a.id ≡ b.id
    → a ≡ b
unfolding program
in_order_unique a b (inl e) (inl f) i = e ∙ sym f
in_order_unique a b (inl e) (inr (inl f)) i = absurd (ground arith)
in_order_unique a b (inr (inl e)) (inl f) i = absurd (ground arith)
in_order_unique a b (inr (inl e)) (inr (inl f)) i = e ∙ sym f
in_order_unique a b (inr (inr e)) h i = absurd e
in_order_unique a b (inl e) (inr (inr f)) i = absurd f
in_order_unique a b (inr (inl e)) (inr (inr f)) i = absurd f

same_clips : (m : Message) → Newest.In m (messages in_order) ↔ Newest.In m (messages shuffled)
same_clips m = (
  (λ h. elim h [ inl e ↦ inr (inl e) | inr k ↦ elim k [ inl f ↦ inl f | inr x ↦ absurd x ] ]),
  (λ h. elim h [
    | inl e ↦ inr (inl e)
    | inr k ↦ elim k [ inl f ↦ inl f | inr l ↦ elim l [ inl g ↦ inr (inl g) | inr x ↦ absurd x ] ]
  ]),
)

fresh-Fresh : Fresh key fresh
unfolding program
fresh-Fresh = record {
  fresh_key = refl;
  fresh_running = refl;
  no_clip = refl;
  none_seen = λ id. refl;
}

other-Fresh : Fresh key other
unfolding program
other-Fresh = record {
  fresh_key = refl;
  fresh_running = refl;
  no_clip = refl;
  none_seen = λ id. refl;
}

handle_all-converge_example :
    ((handle_all plain_hashes toy in_order fresh).current ≡ newest none (messages in_order))
    × ((handle_all plain_hashes toy shuffled other).current
        ≡ (handle_all plain_hashes toy in_order fresh).current)
handle_all-converge_example =
    Converge.handle_all-converge plain_hashes toy key in_order shuffled fresh other in_order-Genuine
      in_order_unique same_clips fresh-Fresh other-Fresh

fresh-IsTracked : Seen.IsTracked fresh
unfolding program
fresh-IsTracked = record { bounded = omega arith; distinct = tt; agree = λ id. refl }

mark_seen-IsTracked_example :
    Seen.IsTracked (mark_seen (codes "a1") fresh)
    × (is_seen (codes "a1") (mark_seen (codes "a1") fresh) ≡ true)
    × ((mark_seen (codes "a1") fresh).seen_order ≡ codes "a1" ∷ [])
unfolding program
mark_seen-IsTracked_example = Seen.mark_seen-IsTracked (codes "a1") fresh fresh-IsTracked

-- The phone has taken the first clip.
abbrev holding : Node
holding = record fresh { current = some first_clip }

abbrev plain_link : LinkInfo
plain_link = record { peer_id = []; name = []; kind = []; via = []; addr = [] }

-- The same with three links.
abbrev linked : Node
linked = record holding { links = (0, plain_link) ∷ (1, plain_link) ∷ (2, plain_link) ∷ [] }

apply_clip-local_copy_example :
    let (n', done) = apply_clip plain_hashes calm 0 second_clip yo linked in
    All (Race.IsOf second_clip yo) done
    × (Race.sends_to 2 done ≡ (if ◌==◌ {A = ℕ} 2 0 then 0 else Race.links_of 2 linked.links))
    × (Race.writes_in done ≡ (if content_hash plain_hashes yo == linked.last_hash then 0 else 1))
    × (local_copy plain_hashes toy 10 (pos 8) (codes "d4") nonce yo n' ≡ (n', []))
unfolding program
apply_clip-local_copy_example =
    Race.apply_clip-local_copy plain_hashes toy calm 0 second_clip yo yo linked 10 (pos 8)
      (codes "d4") nonce 2 refl refl

abbrev copied : Message
copied = record (blank MsgType.clip) {
  id = codes "c3";
  origin = codes "ph";
  origin_name = codes "phone";
  time = pos 6;
  clip_type = clip_text;
}

copied_header : (begin_copy plain_hashes toy (pos 3) (codes "c3") hi holding).1 ≡ some copied
unfolding program
copied_header = refl

-- The phone copies at time 3; the laptop's clip of time 7 arrives before the copy is sealed.
commit_copy_goes_back_example :
    let n₁ = (begin_copy plain_hashes toy (pos 3) (codes "c3") hi holding).0 in
    let n₂ = (apply_clip plain_hashes calm 0 second_clip yo n₁).0 in
    let sealed = seal_clip toy n₁.content_key nonce copied (content_bytes hi) in
    let (n₃, done) = commit_copy plain_hashes toy 9 sealed hi n₂ in
    (n₂.current ≡ some second_clip)
    × (n₃.current ≡ some sealed)
    × (newer_than second_clip sealed ≡ true)
    × (¬ Order.Advances n₂.current n₃.current)
    × (done ≡ send_all (links_except none n₂) sealed)
commit_copy_goes_back_example =
    Race.commit_copy_goes_back plain_hashes toy calm 0 second_clip copied hi yo holding 9 (pos 3)
      (codes "c3") nonce copied_header (unfold program in refl) (unfold program in refl)
