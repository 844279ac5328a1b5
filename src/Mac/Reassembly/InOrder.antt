-- ===== src/Mac/Reassembly/InOrder.antt =====
-- A segment that arrives with the expected number at a buffer that holds back nothing.
use spectracuda.Common.{
  ℕ, ◌<◌, ◌≡◌, ◌⊎◌, refl, List, [], ◌∷◌, ◌++◌, false, arith, ok, lookup, insert, remove,
}
use spectracuda.Mac.Pdu.{sn_add, sn_precedes}
use spectracuda.Mac.Segmenter.{Piece}
use spectracuda.Mac.Reassembly.{Buffer, concatenate, deliver, drain, give_up, ingest}

-- A buffer that holds back nothing.
abbrev pub quiet : ℕ → ℕ → List (List ℕ) → Buffer
quiet w sn arrived = record {
  window_size = w;
  expected_sn = sn;
  pending = [];
  in_progress = arrived;
}

sn_precedes_irrefl : (sn : ℕ) → sn_precedes sn sn ≡ false
unfolding sn_precedes
sn_precedes_irrefl sn = ground arith

module _ (w sn : ℕ) (arrived : List (List ℕ)) (p : Piece) (pos : 0 < w) where
  insert_here : insert sn p [] ≡ (sn, p) ∷ []
  unfolding insert
  insert_here = refl

  ingest-drain :
      ingest sn p (quiet w sn arrived)
      ≡ drain 2 (record (quiet w sn arrived) { pending = (sn, p) ∷ [] })
  unfolding ingest give_up insert
  ingest-drain = ground (arith, sn_precedes_irrefl sn)

  -- A last or a full segment completes the SDU.
  pub ingest_completes :
      (p.si ≡ 0) ⊎ (p.si ≡ 3)
      → ingest sn p (quiet w sn arrived)
        ≡ ok (concatenate (arrived ++ p.bits ∷ []) ∷ [], quiet w (sn_add sn 1) [])
  unfolding drain deliver lookup remove
  ingest_completes h = rw ingest-drain (ground arith)

  -- Any other is kept until the SDU is complete.
  pub ingest_collects :
      (p.si ≡ 1) ⊎ (p.si ≡ 2)
      → ingest sn p (quiet w sn arrived) ≡ ok ([], quiet w (sn_add sn 1) (arrived ++ p.bits ∷ []))
  unfolding drain deliver lookup remove
  ingest_collects h = rw ingest-drain (ground arith)
