-- ===== src/Mac/Pdu/Sequence.antt =====
-- Sequence numbers: the order of `sn_precedes` within a window of half the number space.
use spectracuda.Common.{ℕ, ◌+◌, ◌<◌, ◌≡◌, ◌↔◌, true, false, arith}
use spectracuda.Mac.Pdu.{sn_add, sn_distance, sn_precedes}

pub sn_add-lt : (a d : ℕ) → sn_add a d < 1024
unfolding sn_add
sn_add-lt a d = omega arith

sn_distance-lt : (a b : ℕ) → sn_distance a b < 1024
unfolding sn_distance
sn_distance-lt a b = omega arith

-- The distance from a number to the one that lies `d` further on is `d`.
sn_distance-sn_add : (a d : ℕ) → d < 1024 → sn_distance a (sn_add a d) ≡ d
unfolding sn_distance sn_add
sn_distance-sn_add a d h = omega arith

pub sn_add-sn_distance : (a b : ℕ) → b < 1024 → sn_add a (sn_distance a b) ≡ b
unfolding sn_distance sn_add
sn_add-sn_distance a b h = omega arith

pub sn_add_assoc : (a c d : ℕ) → sn_add (sn_add a c) d ≡ sn_add a (c + d)
unfolding sn_add
sn_add_assoc a c d = omega arith

pub sn_add_zero : (a : ℕ) → a < 1024 → sn_add a 0 ≡ a
unfolding sn_add
sn_add_zero a h = omega arith

-- Across the wrap of the number space, a number comes before those that lie less than half the
-- space ahead of it, and before no other.
pub sn_precedes-sn_add :
    (a d : ℕ) → a < 1024 → d < 1024 → (sn_precedes a (sn_add a d) ≡ true) ↔ ((0 < d) × (d < 512))
unfolding sn_precedes
sn_precedes-sn_add a d ha hd = ground (arith, sn_distance-sn_add a d)

-- No number comes before itself, and of two numbers at most one comes before the other.
sn_precedes_asymm :
    (a b : ℕ) → a < 1024 → b < 1024 → sn_precedes a b ≡ true → sn_precedes b a ≡ false
unfolding sn_precedes
sn_precedes_asymm a b ha hb h = ground arith
