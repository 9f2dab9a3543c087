-- ===== src/Protocol/Link.antt =====
-- internal/protocol/protocol.go: the cipher of a direct link, with counter nonces.
use void_bridge.Base.{
  ℕ, zero, suc, ◌+◌, ◌*◌, ◌/◌, ◌%◌, ◌^◌, ◌<◌, ◌≡◌, refl, ap, Bool, [], ◌∷◌, ◌++◌, Option, none,
  some, Str, arith, if◌then◌else◌, length, length-append,
}
use native.Mathlib.Nat.{pow-suc}
use void_bridge.Protocol.Crypto.{Aead, IsAead}

-- Big-endian bytes of a number.
unfoldable pub big_endian : ℕ → ℕ → Str
big_endian zero n = []
big_endian (suc k) n = big_endian k (n / 256) ++ (n % 256) ∷ []

abbrev pub dir_client : ℕ
dir_client = 1986134017

abbrev pub dir_server : ℕ
dir_server = 1986134018

unfoldable pub link_nonce : ℕ → ℕ → Str
link_nonce dir n = big_endian 4 dir ++ big_endian 8 n

pub record LinkCipher : Type 0 where
  pub key : Str
  pub send_dir : ℕ
  pub recv_dir : ℕ
  pub send_count : ℕ
  pub recv_count : ℕ

unfoldable pub new_cipher : Str → Bool → LinkCipher
new_cipher key is_server = record {
  key = key;
  send_dir = if is_server then dir_server else dir_client;
  recv_dir = if is_server then dir_client else dir_server;
  send_count = 0;
  recv_count = 0;
}

module _ (c : Aead) where
  unfoldable pub seal_frame : LinkCipher → Str → LinkCipher × Str
  seal_frame s plain = (
    record s { send_count = (s.send_count + 1) % 2 ^ 64 },
    c.seal s.key (link_nonce s.send_dir s.send_count) plain [],
  )

  unfoldable pub open_frame : LinkCipher → Str → LinkCipher × Option Str
  open_frame s sealed = elim (c.open_sealed s.key (link_nonce s.recv_dir s.recv_count) sealed []) [
    | none ↦ (s, none)
    | some p ↦ (record s { recv_count = (s.recv_count + 1) % 2 ^ 64 }, some p)
  ]

-- The number that big-endian bytes stand for, after `acc`.
unfoldable pub value : ℕ → Str → ℕ
value acc [] = acc
value acc (b ∷ s) = value (256 * acc + b) s

value-append : (acc b : ℕ) (s : Str) → value acc (s ++ b ∷ []) ≡ 256 * value acc s + b
unfolding value
value-append acc b [] = refl
value-append acc b (x ∷ s) = value-append (256 * acc + x) b s

pub value-big_endian : (k n : ℕ) → n < 256 ^ k → value 0 (big_endian k n) ≡ n
unfolding big_endian value
value-big_endian zero n h = omega arith
value-big_endian (suc k) n h = ground (
  arith,
  pow-suc 256 k,
  value-big_endian k (n / 256),
  value-append 0 (n % 256) (big_endian k (n / 256)),
)

pub length-big_endian : (k n : ℕ) → length (big_endian k n) ≡ k
unfolding big_endian
length-big_endian zero n = refl
length-big_endian (suc k) n =
    omega
      (arith, length-append (big_endian k (n / 256)) (n % 256 ∷ []), length-big_endian k (n / 256))

-- Two ends of a link: what one sends next is what the other expects next.
pub record IsPaired (s r : LinkCipher) : Type 0 where
  pub same_key : s.key ≡ r.key
  pub same_dir : s.send_dir ≡ r.recv_dir
  pub same_count : s.send_count ≡ r.recv_count

-- The numbers of a link cipher fit their machine words.
pub record IsSized (r : LinkCipher) : Type 0 where
  pub dir_uint32 : r.recv_dir < 2 ^ 32
  pub count_uint64 : r.recv_count < 2 ^ 64

abbrev advanced : LinkCipher → LinkCipher
advanced r = record r { recv_count = (r.recv_count + 1) % 2 ^ 64 }

open_frame-ok :
    (c : Aead) (r : LinkCipher) (sealed p : Str)
    → c.open_sealed r.key (link_nonce r.recv_dir r.recv_count) sealed [] ≡ some p
    → open_frame c r sealed ≡ (advanced r, some p)
unfolding open_frame
open_frame-ok c r sealed p e = ground (arith, e)

pub open_frame-none :
    (c : Aead) (r : LinkCipher) (sealed : Str)
    → c.open_sealed r.key (link_nonce r.recv_dir r.recv_count) sealed [] ≡ none
    → open_frame c r sealed ≡ (r, none)
unfolding open_frame
open_frame-none c r sealed e = ground (arith, e)

module _ (c : Aead) (laws : IsAead c) where
  -- With a cipher that has the laws, the frame that one end seals next opens at the other end to
  -- what was sealed, and the ends stay paired: so all frames arrive if each is opened once and in
  -- order.
  pub open_frame-seal_frame :
      (s r : LinkCipher) (p : Str)
      → IsPaired s r
      → let (s', sealed) = seal_frame c s p in
        let (r', opened) = open_frame c r sealed in (opened ≡ some p) × IsPaired s' r'
  unfolding seal_frame
  open_frame-seal_frame s r p v =
      let e : c.open_sealed r.key (link_nonce r.recv_dir r.recv_count) (seal_frame c s p).1 []
          ≡ some p =
        cc (
          laws.open-seal s.key (link_nonce s.send_dir s.send_count) p [],
          v.same_key,
          v.same_dir,
          v.same_count,
        ) in
      rw (open_frame-ok c r (seal_frame c s p).1 p e) (
        refl,
        record {
          same_key = v.same_key;
          same_dir = v.same_dir;
          same_count = ap (λ n. (n + 1) % 2 ^ 64) v.same_count;
        },
      )
