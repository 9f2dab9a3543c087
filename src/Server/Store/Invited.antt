-- ===== src/Server/Store/Invited.antt =====
-- An invite works under the code that its maker was given.
use void_bridge.Base.{
  ℕ, ◌<◌, ◌≡◌, refl, Bool, none, some, Str, ℤ, arith, ap, ◌∙◌, str_eq, ◌==◌, eq_refl, if◌then◌else◌,
}
use void_bridge.Base.Dict.{lookup, lookup-insert}
use void_bridge.Protocol.Code.{normalize_code, format_invite}
use void_bridge.Protocol.Code.Round.{IsBare, normalize_code_bare, normalize_code-format_invite}
use void_bridge.Server.Store.{Invite, Store, usable_invite, is_expired, save}
use void_bridge.Server.Store.Admin.{create_invite, uses_of, expiry_of}
use void_bridge.Server.Store.Ops.{uses_of_pos}

abbrev pub created : ℕ → Str → Str → ℤ → ℤ → Str → Invite
created now code by uses valid note = record {
  code = code;
  created_by = by;
  created = now;
  expires = expiry_of now valid;
  uses_left = uses_of uses;
  note = note;
}

create_invite-lookup :
    (fails : Bool) (now : ℕ) (code by : Str) (uses valid : ℤ) (note : Str) (s : Store) (k : Str)
    → lookup k (create_invite fails now code by uses valid note s).0.mem.invites
      ≡ (if code == k then some (created now code by uses valid note) else lookup k s.mem.invites)
unfolding create_invite save
create_invite-lookup fails now code by uses valid note s k =
    ground (arith, lookup-insert code k (created now code by uses valid note) s.mem.invites)

usable_held :
    (later : ℕ) (typed : Str) (i : Invite) (s : Store)
    → lookup (normalize_code typed) s.mem.invites ≡ some i
    → 0 < i.uses_left
    → usable_invite later typed s ≡ (if is_expired later i then none else some i)
unfolding usable_invite
usable_held later typed i s e u = ground arith

-- A new invite, of a code of base32 letters and digits, can be used under the code with dashes that
-- `CreateInvite` returns, until it expires; also if the disk refused the write.
pub usable_invite-create_invite :
    (fails : Bool) (now later : ℕ) (code by : Str) (uses valid : ℤ) (note : Str) (s : Store)
    → IsBare code
    → let i = created now code by uses valid note in
      usable_invite later (format_invite code) (create_invite fails now code by uses valid note s).0
      ≡ (if is_expired later i then none else some i)
usable_invite-create_invite fails now later code by uses valid note s bare =
    let i = created now code by uses valid note in
    let s' = (create_invite fails now code by uses valid note s).0 in
    usable_held later (format_invite code) i s'
      (ap (λ k. lookup k s'.mem.invites)
          (normalize_code-format_invite code ∙ normalize_code_bare code bare)
        ∙ (create_invite-lookup fails now code by uses valid note s code ∙ rw (eq_refl code) refl))
      (uses_of_pos uses)
