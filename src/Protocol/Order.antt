-- ===== src/Protocol/Order.antt =====
-- `newer`: clips are ordered strictly and totally by time and id.
use void_bridge.Base.{
  ◌≡◌, refl, true, false, [], ◌∷◌, Str, arith, int_beq_iff, int_lt_irrefl, int_lt_trans,
  int_lt_connected,
}
use void_bridge.Protocol.Message.{Message, str_lt, newer_than}

pub str_lt_irrefl : (a : Str) → str_lt a a ≡ false
unfolding str_lt
str_lt_irrefl [] = refl
str_lt_irrefl (x ∷ a) = ground (arith, str_lt_irrefl a)

pub str_lt_trans : (a b c : Str) → str_lt a b ≡ true → str_lt b c ≡ true → str_lt a c ≡ true
unfolding str_lt
str_lt_trans a [] c = ground arith
str_lt_trans a (y ∷ b) [] = ground arith
str_lt_trans [] (y ∷ b) (z ∷ c) = ground arith
str_lt_trans (x ∷ a) (y ∷ b) (z ∷ c) = ground (arith, str_lt_trans a b c)

pub str_lt_connected : (a b : Str) → str_lt a b ≡ false → str_lt b a ≡ false → a ≡ b
unfolding str_lt
str_lt_connected [] [] = ground arith
str_lt_connected [] (y ∷ b) = ground arith
str_lt_connected (x ∷ a) [] = ground arith
str_lt_connected (x ∷ a) (y ∷ b) = ground (arith, str_lt_connected a b)

pub newer_than_irrefl : (m : Message) → newer_than m m ≡ false
unfolding newer_than
newer_than_irrefl m = ground (arith, str_lt_irrefl m.id, int_lt_irrefl m.time)

pub newer_than_trans :
    (a b c : Message) → newer_than a b ≡ true → newer_than b c ≡ true → newer_than a c ≡ true
unfolding newer_than
newer_than_trans a b c = ground (
  arith,
  int_beq_iff a.time b.time,
  int_beq_iff b.time c.time,
  int_beq_iff a.time c.time,
  int_lt_trans c.time b.time a.time,
  str_lt_trans c.id b.id a.id,
  int_lt_trans c.time b.time c.time,
  int_lt_irrefl c.time,
)

pub newer_than_connected :
    (a b : Message)
    → newer_than a b ≡ false
    → newer_than b a ≡ false
    → (a.time ≡ b.time) × (a.id ≡ b.id)
unfolding newer_than
newer_than_connected a b = ground (
  arith,
  int_beq_iff a.time b.time,
  int_beq_iff b.time a.time,
  str_lt_connected a.id b.id,
  int_lt_connected a.time b.time,
)
