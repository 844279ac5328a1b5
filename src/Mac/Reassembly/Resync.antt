-- ===== src/Mac/Reassembly/Resync.antt =====
-- Giving up on the expected segment: which pending segment the buffer goes on with.
use spectracuda.Common.{[], ℕ, ◌+◌, ◌≤◌, ◌<◌, ◌≡◌, ◌⊎◌, refl, true, arith, ok, has_key}
use spectracuda.Mac.Pdu.{sn_precedes}
use spectracuda.Mac.Reassembly.{Buffer, resync}
use spectracuda.Mac.Reassembly.Invariant.{InSpace, IsLeastKey, has_least}

resync-eq_ok :
    (b : Buffer) (m : ℕ)
    → IsLeastKey b.pending m
    → resync b ≡ ok (record b { in_progress = []; expected_sn = m })
unfolding resync
resync-eq_ok b m least = rw least.found refl

-- While the pending numbers lie ahead of the expected one without a wrap of the number space, the
-- buffer goes on with the earliest of them, in the order of sequence numbers.
pub resync_earliest :
    (b : Buffer) (k : ℕ)
    → has_key k b.pending ≡ true
    → InSpace b.pending
    → ((j : ℕ) → has_key j b.pending ≡ true → (b.expected_sn ≤ j) × (j < b.expected_sn + 512))
    → (m : ℕ) × (resync b ≡ ok (record b { in_progress = []; expected_sn = m }))
      × (has_key m b.pending ≡ true)
      × ((j : ℕ) → has_key j b.pending ≡ true → (m ≡ j) ⊎ (sn_precedes m j ≡ true))
unfolding sn_precedes
resync_earliest b k here inside ahead =
    let (m, least) = has_least b.pending k here in
    (
      m,
      resync-eq_ok b m least,
      least.present,
      λ j e. ground (arith, least.least j e, ahead j e, ahead m least.present, inside j e),
    )

-- Where the pending numbers straddle the wrap, this fails for every buffer: if the pending `k`
-- comes before the pending `j` in the order of sequence numbers although `j < k`, the buffer goes
-- on with a number that `k` comes before, so `k` is left behind.
pub resync_across_wrap :
    (b : Buffer) (j k : ℕ)
    → has_key j b.pending ≡ true
    → has_key k b.pending ≡ true
    → InSpace b.pending
    → j < k
    → sn_precedes k j ≡ true
    → (m : ℕ) × (resync b ≡ ok (record b { in_progress = []; expected_sn = m }))
      × (sn_precedes k m ≡ true)
unfolding sn_precedes
resync_across_wrap b j k hj hk inside lt wraps =
    let (m, least) = has_least b.pending j hj in
    (m, resync-eq_ok b m least, ground (arith, least.least j hj, inside j hj, inside k hk))
