-- ===== src/Mac/Entity.antt =====
-- The entity that a Mac or a link drives (mac/mac.py, `_MODES` and the attributes that Mac passes
-- on): one of tm.py, um.py or am.py.
use Prim.Native.String.{String}
use text.Mathlib.Text.{◌==◌ as str_eq}
use spectracuda.Common.{
  ℕ, List, [], ◌∷◌, Outcome, ok, raise, loops, value_error, ◌>>=◌, if◌then◌else◌,
}
use spectracuda.Mac.Tm
use spectracuda.Mac.Um
use spectracuda.Mac.Am
use spectracuda.Mac.Tm.{TmEntity, tm_entity}
use spectracuda.Mac.Um.{UmEntity, um_entity}
use spectracuda.Mac.Am.{AmEntity, am_entity}

pub data Entity : Type 0 where
  in_tm : TmEntity → Entity
  in_um : UmEntity → Entity
  in_am : AmEntity → Entity

-- `_MODES[mode](max_segment_bits, window_size=..., max_retries=...)`
unfoldable pub entity : String → ℕ → ℕ → ℕ → Outcome Entity
entity mode max_segment_bits window_size max_retries =
    if str_eq mode "tm"
    then (do t ← tm_entity max_segment_bits; ok (in_tm t))
    else if str_eq mode "um"
    then (do u ← um_entity max_segment_bits window_size; ok (in_um u))
    else if str_eq mode "am"
    then (do a ← am_entity max_segment_bits window_size max_retries; ok (in_am a))
    else raise value_error

-- `self._impl.transmit(sdu_bits)`
abbrev pub transmit : List ℕ → Entity → Outcome (List (List ℕ)) × Entity
transmit sdu_bits (in_tm t) = (Tm.transmit sdu_bits t, in_tm t)
transmit sdu_bits (in_um u) = let (sent, u') = Um.transmit sdu_bits u in (sent, in_um u')
transmit sdu_bits (in_am a) = let (sent, a') = Am.transmit sdu_bits a in (sent, in_am a')

abbrev keep_um : Outcome (List (List ℕ) × UmEntity) → UmEntity → Outcome (List (List ℕ)) × Entity
keep_um (ok (done, u')) u = (ok done, in_um u')
keep_um (raise e) u = (raise e, in_um u)
keep_um loops u = (loops, in_um u)

-- `self._impl.receive(pdu_bits)`, or `receive_data` in AM; the one array of TM is a list of one.
abbrev pub receive : List ℕ → Entity → Outcome (List (List ℕ)) × Entity
receive pdu_bits (in_tm t) = (ok (Tm.receive pdu_bits ∷ []), in_tm t)
receive pdu_bits (in_um u) = keep_um (Um.receive pdu_bits u) u
receive pdu_bits (in_am a) = let (done, a') = Am.receive_data pdu_bits a in (done, in_am a')

-- `set_tx_scheme` stores the new bound in the segmenter that the entity uses.
abbrev pub set_max_segment_bits : ℕ → Entity → Entity
set_max_segment_bits n (in_tm t) = in_tm (record t { max_segment_bits = n })
set_max_segment_bits n (in_um u) = in_um (record u { segmenter = record { max_segment_bits = n } })
set_max_segment_bits n (in_am a) =
    in_am (record a { um = record a.um { segmenter = record { max_segment_bits = n } } })
