-- ===== src/Mac/Reassembly/Invariant.antt =====
-- What holds of the buffer between two calls, and that `ingest` always returns.
use spectracuda.Common.{
  contains, ℕ, suc, ◌≤◌, ◌<◌, ◌≡◌, ◌∙◌, ◌⊎◌, inl, inr, refl, sym, List, [], ◌∷◌, true, false, not,
  ◌&&◌, arith, Outcome, ok, ltb, length, Bool-cases, Dict, lookup, insert, has_key, keys, IsDict,
  insert-IsDict, length-insert, lookup-insert,
}
use spectracuda.Mac.Pdu.{sn_precedes}
use spectracuda.Mac.Segmenter.{Piece}
use spectracuda.Mac.Reassembly.{Buffer, buffer, drain, min_from, min_key, give_up, ingest}
use spectracuda.Mac.Reassembly.Drain.{Drained, drain-Drained}

-- Numbers of the sequence space only.
abbrev pub InSpace : Dict Piece → Type 0
InSpace d = (k : ℕ) → has_key k d ≡ true → k < 1024

pub record IsBuffer (b : Buffer) : Type 0 where
  pub window_pos : 0 < b.window_size
  pub window_fits : length b.pending ≤ b.window_size
  pub dict : IsDict b.pending
  pub in_space : InSpace b.pending
  pub expected_in_space : b.expected_sn < 1024
  pub settled : has_key b.expected_sn b.pending ≡ false

-- A new buffer satisfies the invariant.
buffer-IsBuffer : (w n : ℕ) → 0 < w → n < 1024 → (b : Buffer) × (buffer w n ≡ ok b) × IsBuffer b
unfolding buffer lookup
buffer-IsBuffer w n pos h = (
  record { window_size = w; expected_sn = n; pending = []; in_progress = [] },
  ground arith,
  record {
    window_pos = pos;
    window_fits = omega arith;
    dict = tt;
    in_space = λ k m. cc;
    expected_in_space = h;
    settled = refl;
  },
)

has_key-contains : (k : ℕ) (d : Dict Piece) → has_key k d ≡ contains k (keys d)
unfolding lookup contains
has_key-contains k [] = refl
has_key-contains k ((j, p) ∷ d) = ground (arith, has_key-contains k d)

contains-min_from : (k : ℕ) (ks : List ℕ) → contains (min_from k ks) (k ∷ ks) ≡ true
unfolding contains min_from
contains-min_from k [] = ground arith
contains-min_from k (j ∷ ks) = ground (arith, contains-min_from j ks, contains-min_from k ks)

min_from-le : (i k : ℕ) (ks : List ℕ) → contains i (k ∷ ks) ≡ true → min_from k ks ≤ i
unfolding contains min_from
min_from-le i k [] h = ground arith
min_from-le i k (j ∷ ks) h =
    ground (arith, min_from-le i j ks, min_from-le i k ks, min_from-le j j ks, min_from-le k k ks)

-- The smallest number of a dict that is not empty is one of its keys, and none is below it.
pub record IsLeastKey (d : Dict Piece) (m : ℕ) : Type 0 where
  pub found : min_key (keys d) ≡ ok m
  pub present : has_key m d ≡ true
  pub least : (j : ℕ) → has_key j d ≡ true → m ≤ j

pub has_least : (d : Dict Piece) (k : ℕ) → has_key k d ≡ true → (m : ℕ) × IsLeastKey d m
unfolding min_key lookup
has_least [] k h = cc
has_least ((i, p) ∷ d) k h = (
  min_from i (keys d),
  record {
    found = refl;
    present = has_key-contains (min_from i (keys d)) ((i, p) ∷ d) ∙ contains-min_from i (keys d);
    least = λ j e. min_from-le j i (keys d) (sym (has_key-contains j ((i, p) ∷ d)) ∙ e);
  },
)

keeps_key :
    (b : Buffer) (r : Outcome (List (List ℕ) × Buffer)) (d : Drained b r) (k : ℕ)
    → has_key k d.after.pending ≡ true
    → has_key k b.pending ≡ true
keeps_key b r d k h = elim (Bool-cases (has_key k b.pending)) [
  | inl e ↦ e
  | inr e ↦ cc (d.fewer k e)
]

-- A buffer that the loop is entered with: the window is kept, or exceeded by one segment while the
-- loop has one to take out.
record IsReady (b : Buffer) : Type 0 where
  window_pos : 0 < b.window_size
  dict : IsDict b.pending
  in_space : InSpace b.pending
  expected_in_space : b.expected_sn < 1024
  room :
      (length b.pending ≤ b.window_size)
      ⊎ ((length b.pending ≤ suc b.window_size) × (has_key b.expected_sn b.pending ≡ true))

fits :
    (b : Buffer) (r : Outcome (List (List ℕ) × Buffer)) (d : Drained b r)
    → (length b.pending ≤ b.window_size)
      ⊎ ((length b.pending ≤ suc b.window_size) × (has_key b.expected_sn b.pending ≡ true))
    → length d.after.pending ≤ d.after.window_size
fits b r d (inl h) = omega (arith, d.same_window, d.shrinks, h)
fits b r d (inr (h, k)) = omega (arith, d.same_window, d.advances k, h)

abbrev pub Returns : Outcome (List (List ℕ) × Buffer) → Type 0
Returns r = (done : List (List ℕ)) × (after : Buffer) × (r ≡ ok (done, after)) × IsBuffer after

drain-Returns : (b : Buffer) → IsReady b → Returns (drain (suc (length b.pending)) b)
drain-Returns b v =
    let d : Drained b (drain (suc (length b.pending)) b) =
      drain-Drained (suc (length b.pending)) b (omega arith) v.dict v.expected_in_space in
    (
      d.done,
      d.after,
      d.returns,
      record {
        window_pos = omega (arith, d.same_window, v.window_pos);
        window_fits = fits b _ d v.room;
        dict = d.dict;
        in_space = λ k h. v.in_space k (keeps_key b _ d k h);
        expected_in_space = d.in_space;
        settled = d.settled;
      },
    )

-- Storing one more segment in a buffer that keeps the invariant.
module _ (sn : ℕ) (p : Piece) (b : Buffer) (h : sn < 1024) (v : IsBuffer b) where
  stored : Buffer
  stored = record b { pending = insert sn p b.pending }

  stored-room : length stored.pending ≤ suc b.window_size
  unfolding stored
  stored-room = ground (arith, length-insert sn p b.pending, v.window_fits)

  stored-IsDict : IsDict stored.pending
  unfolding stored
  stored-IsDict = insert-IsDict sn p b.pending v.dict

  stored-InSpace : InSpace stored.pending
  unfolding stored
  stored-InSpace k e = ground (arith, lookup-insert sn k p b.pending, v.in_space k, h)

  stored_key : has_key sn stored.pending ≡ true
  unfolding stored
  stored_key = ground (arith, lookup-insert sn sn p b.pending)

  stored-IsReady :
      (length stored.pending ≤ b.window_size)
        ⊎ ((length stored.pending ≤ suc b.window_size)
            × (has_key b.expected_sn stored.pending ≡ true))
      → IsReady stored
  unfolding stored
  stored-IsReady room = record {
    window_pos = v.window_pos;
    dict = stored-IsDict;
    in_space = stored-InSpace;
    expected_in_space = v.expected_in_space;
    room = room;
  }

  restarted : ℕ → Buffer
  restarted m = record stored { in_progress = []; expected_sn = m }

  restarted-IsReady : (m : ℕ) → IsLeastKey stored.pending m → IsReady (restarted m)
  unfolding stored restarted
  restarted-IsReady m least = record {
    window_pos = v.window_pos;
    dict = stored-IsDict;
    in_space = stored-InSpace;
    expected_in_space = stored-InSpace m least.present;
    room = inr (stored-room, least.present);
  }

  give_up-restarted :
      (m : ℕ)
      → IsLeastKey stored.pending m
      → ltb b.window_size (length stored.pending) ≡ true
      → has_key b.expected_sn stored.pending ≡ false
      → give_up stored ≡ ok (restarted m)
  unfolding give_up stored restarted
  give_up-restarted m least full missing = rw (full, missing, least.found) refl

  give_up-stored :
      (ltb b.window_size (length stored.pending) && not (has_key b.expected_sn stored.pending))
        ≡ false
      → give_up stored ≡ ok stored
  unfolding give_up stored
  give_up-stored waits = rw waits refl

  give_up-IsReady : (b' : Buffer) × (give_up stored ≡ ok b') × IsReady b'
  give_up-IsReady = elim (Bool-cases (has_key b.expected_sn stored.pending)) [
    | inl here ↦ (stored, give_up-stored (ground arith), stored-IsReady (inr (stored-room, here)))
    | inr missing ↦ elim (Bool-cases (ltb b.window_size (length stored.pending))) [
      | inr room ↦ (stored, give_up-stored (ground arith), stored-IsReady (inl (ground arith)))
      | inl full ↦
          (let (m, least) = has_least stored.pending sn stored_key in
            (restarted m, give_up-restarted m least full missing, restarted-IsReady m least))
    ]
  ]

-- The call always returns, and keeps the invariant: no number twice, at most `window_size` pending
-- segments, and the expected one not among them.
pub ingest-IsBuffer :
    (sn : ℕ) (p : Piece) (b : Buffer) → sn < 1024 → IsBuffer b → Returns (ingest sn p b)
unfolding ingest stored
ingest-IsBuffer sn p b h v = elim (Bool-cases (sn_precedes sn b.expected_sn)) [
  | inl stale ↦ rw stale ([], b, refl, v)
  | inr fresh ↦
      rw fresh (let (b', e, ready) = give_up-IsReady sn p b h v in rw e (drain-Returns b' ready))
]
