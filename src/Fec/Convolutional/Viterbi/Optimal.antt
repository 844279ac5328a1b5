-- ===== src/Fec/Convolutional/Viterbi/Optimal.antt =====
-- No path to a state has a smaller metric than the one that the traceback follows.
use spectracuda.Common.{
  ℕ, suc, ◌≤◌, ◌<◌, ◌≡◌, inl, inr, refl, sym, ap, ap₂, ◌∙◌, List, [], ◌∷◌, true, false, Bool-cases,
  arith, length, get_or, map, count_up, All, IsBit,
}
use spectracuda.Fec.Convolutional.{next_state}
use spectracuda.Fec.Convolutional.Viterbi.{
  Metric, finite, infinity, FloatSum, below, plus, candidate, choose_b, best_metric, best_pred,
  survivors, traceback, branch_metric, pred_a, pred_b, input_bit, n_states,
}
use spectracuda.Fec.Convolutional.Trellis.{
  next_state-pred_a, next_state-pred_b, input_bit-next_state, input_bit-IsBit, is_pred,
  next_state-lt, get_or-states, end_of,
}

-- The order of metrics.
abbrev pub AtMost : Metric → Metric → Type 0
AtMost m infinity = Unit
AtMost (finite m) (finite n) = m ≤ n
AtMost infinity (finite n) = ⊥

pub AtMost-refl : (m : Metric) → AtMost m m
AtMost-refl (finite m) = omega arith
AtMost-refl infinity = tt

pub AtMost-trans : (l m n : Metric) → AtMost l m → AtMost m n → AtMost l n
AtMost-trans l m infinity h k = tt
AtMost-trans (finite l) (finite m) (finite n) h k = omega arith
AtMost-trans (finite l) infinity (finite n) h k = absurd k
AtMost-trans infinity (finite m) (finite n) h k = absurd h
AtMost-trans infinity infinity (finite n) h k = absurd k

below-AtMost : (m n : Metric) → below m n ≡ true → AtMost m n
below-AtMost (finite m) (finite n) h = ground arith
below-AtMost m infinity h = tt
below-AtMost infinity (finite n) h = cc

not_below-AtMost : (m n : Metric) → below m n ≡ false → AtMost n m
not_below-AtMost (finite m) (finite n) h = ground arith
not_below-AtMost (finite m) infinity h = cc
not_below-AtMost infinity n h = tt

module _ (fl : FloatSum) where
  plus_mono : (m n : Metric) (c : ℕ) → AtMost m n → AtMost (plus fl m c) (plus fl n c)
  plus_mono m infinity c h = tt
  plus_mono (finite m) (finite n) c h = fl.monotone m n c h
  plus_mono infinity (finite n) c h = absurd h

  -- The metric of a path of these bits from state `s`, whose metric is `m`.
  unfoldable pub path_metric : Metric → ℕ → List ℕ → List (ℕ × ℕ) → Metric
  path_metric m s (b ∷ bits) (r ∷ rs) =
      path_metric (plus fl m (branch_metric s b r)) (next_state s b) bits rs
  path_metric m s bits rs = m

  path_metric_mono :
      (m n : Metric) (s : ℕ) (bits : List ℕ) (rs : List (ℕ × ℕ))
      → AtMost m n
      → AtMost (path_metric m s bits rs) (path_metric n s bits rs)
  unfolding path_metric
  path_metric_mono m n s [] rs h = h
  path_metric_mono m n s (b ∷ bits) [] h = h
  path_metric_mono m n s (b ∷ bits) (r ∷ rs) h =
      path_metric_mono (plus fl m (branch_metric s b r)) (plus fl n (branch_metric s b r))
        (next_state s b) bits rs (plus_mono m n (branch_metric s b r) h)

  -- The survivor of a state is a predecessor, and by way of it the state's metric comes about.
  record IsSurvivor (metrics : List Metric) (r : ℕ × ℕ) (ns p : ℕ) : Type 0 where
    in_range : p < 64
    leads : next_state p (input_bit ns) ≡ ns
    attained : best_metric fl metrics r ns ≡ candidate fl metrics r ns p

  best_pred-IsSurvivor :
      (metrics : List Metric) (r : ℕ × ℕ) (ns : ℕ)
      → ns < 64
      → IsSurvivor metrics r ns (best_pred fl metrics r ns)
  unfolding best_pred best_metric
  best_pred-IsSurvivor metrics r ns h = elim (Bool-cases (choose_b fl metrics r ns)) [
    | inl b ↦
        rw b
          (record { in_range = omega arith; leads = next_state-pred_b ns h; attained = rw b refl })
    | inr a ↦
        rw a
          (record { in_range = omega arith; leads = next_state-pred_a ns h; attained = rw a refl })
  ]

  -- And by way of neither predecessor it is smaller.
  best-a :
      (metrics : List Metric) (r : ℕ × ℕ) (ns : ℕ)
      → AtMost (best_metric fl metrics r ns) (candidate fl metrics r ns (pred_a ns))
  unfolding best_metric
  best-a metrics r ns = elim (Bool-cases (choose_b fl metrics r ns)) [
    | inl b ↦ rw b (
        below-AtMost (candidate fl metrics r ns (pred_b ns)) (candidate fl metrics r ns (pred_a ns))
          b)
    | inr a ↦ rw a (AtMost-refl (candidate fl metrics r ns (pred_a ns)))
  ]

  best-b :
      (metrics : List Metric) (r : ℕ × ℕ) (ns : ℕ)
      → AtMost (best_metric fl metrics r ns) (candidate fl metrics r ns (pred_b ns))
  unfolding best_metric
  best-b metrics r ns = elim (Bool-cases (choose_b fl metrics r ns)) [
    | inl b ↦ rw b (AtMost-refl (candidate fl metrics r ns (pred_b ns)))
    | inr a ↦ rw a (
        not_below-AtMost (candidate fl metrics r ns (pred_b ns))
          (candidate fl metrics r ns (pred_a ns)) a)
  ]

  from :
      (s b : ℕ) (r : ℕ × ℕ) (metrics : List Metric) (p : ℕ)
      → IsBit b
      → s ≡ p
      → candidate fl metrics r (next_state s b) p
        ≡ plus fl (get_or metrics s infinity) (branch_metric s b r)
  from s b r metrics p h e =
      ap₂ (λ (q c : ℕ). plus fl (get_or metrics q infinity) (branch_metric q c r)) (sym e)
        (input_bit-next_state s b h)

  best-least :
      (metrics : List Metric) (r : ℕ × ℕ) (s b : ℕ)
      → s < 64
      → IsBit b
      → AtMost
          (best_metric fl metrics r (next_state s b))
          (plus fl (get_or metrics s infinity) (branch_metric s b r))
  best-least metrics r s b lt h = elim (is_pred s b lt h) [
    | inl e ↦
        rw (← from s b r metrics (pred_a (next_state s b)) h e) (best-a metrics r (next_state s b))
    | inr e ↦
        rw (← from s b r metrics (pred_b (next_state s b)) h e) (best-b metrics r (next_state s b))
  ]

  -- The traceback from a state: a path that ends there, and no other has a smaller metric.
  pub record IsTraced (metrics : List Metric) (rs : List (ℕ × ℕ)) (state : ℕ) (r : ℕ × List ℕ)
      : Type 0 where
    pub in_range : r.0 < 64
    pub size : length r.1 ≡ length rs
    pub all_bits : All IsBit r.1
    pub ends : end_of r.0 r.1 ≡ state
    pub least :
        (s : ℕ) (bits : List ℕ)
        → s < 64
        → length bits ≡ length rs
        → All IsBit bits
        → end_of s bits ≡ state
        → AtMost
            (path_metric (get_or metrics r.0 infinity) r.0 r.1 rs)
            (path_metric (get_or metrics s infinity) s bits rs)

  abbrev next_metrics : List Metric → ℕ × ℕ → List Metric
  next_metrics metrics r = map (best_metric fl metrics r) (count_up 0 n_states)

  least_nil :
      (metrics : List Metric) (s state : ℕ) (bits : List ℕ)
      → length bits ≡ 0
      → end_of s bits ≡ state
      → AtMost (get_or metrics state infinity) (path_metric (get_or metrics s infinity) s bits [])
  unfolding end_of path_metric
  least_nil metrics s state [] len e = rw e (AtMost-refl (get_or metrics state infinity))
  least_nil metrics s state (b ∷ bits) len e = absurd (omega arith)

  reached :
      (metrics : List Metric) (r : ℕ × ℕ) (after p : ℕ)
      → after < 64
      → IsSurvivor metrics r after p
      → get_or (next_metrics metrics r) after infinity
        ≡ plus fl (get_or metrics p infinity) (branch_metric p (input_bit after) r)
  reached metrics r after p lt v =
      get_or-states (best_metric fl metrics r) after infinity lt ∙ v.attained

  unreached :
      (metrics : List Metric) (r : ℕ × ℕ) (s b : ℕ)
      → s < 64
      → IsBit b
      → AtMost
          (get_or (next_metrics metrics r) (next_state s b) infinity)
          (plus fl (get_or metrics s infinity) (branch_metric s b r))
  unreached metrics r s b lt h =
      rw (get_or-states (best_metric fl metrics r) (next_state s b) infinity (next_state-lt s b))
        (best-least metrics r s b lt h)

  least_step :
      (metrics : List Metric) (r : ℕ × ℕ) (rs : List (ℕ × ℕ)) (state after p : ℕ) (later : List ℕ)
      → IsTraced (next_metrics metrics r) rs state (after, later)
      → IsSurvivor metrics r after p
      → (s : ℕ) (bits : List ℕ) → s < 64
      → length bits ≡ suc (length rs)
      → All IsBit bits
      → end_of s bits ≡ state
      → AtMost
          (path_metric
            (plus fl (get_or metrics p infinity) (branch_metric p (input_bit after) r))
            (next_state p (input_bit after))
            later
            rs)
          (path_metric (get_or metrics s infinity) s bits (r ∷ rs))
  unfolding end_of path_metric
  least_step metrics r rs state after p later t v s [] lt len h e = absurd (omega arith)
  least_step metrics r rs state after p later t v s (b ∷ bits) lt len h e =
      let m = plus fl (get_or metrics s infinity) (branch_metric s b r) in
      rw (v.leads, ← reached metrics r after p t.in_range v)
        (AtMost-trans (path_metric (get_or (next_metrics metrics r) after infinity) after later rs)
          (path_metric (get_or (next_metrics metrics r) (next_state s b) infinity) (next_state s b)
            bits rs)
          (path_metric m (next_state s b) bits rs)
          (t.least (next_state s b) bits (next_state-lt s b) (omega arith) h.1 e)
          (path_metric_mono (get_or (next_metrics metrics r) (next_state s b) infinity) m
            (next_state s b) bits rs (unreached metrics r s b lt h.0)))

  least_cons :
      (metrics : List Metric) (r : ℕ × ℕ) (rs : List (ℕ × ℕ)) (state after p : ℕ) (later : List ℕ)
      → IsTraced (next_metrics metrics r) rs state (after, later)
      → IsSurvivor metrics r after p
      → IsTraced metrics (r ∷ rs) state (p, input_bit after ∷ later)
  unfolding end_of path_metric
  least_cons metrics r rs state after p later t v = record {
    in_range = v.in_range;
    size = ap suc t.size;
    all_bits = (input_bit-IsBit after, t.all_bits);
    ends = rw v.leads t.ends;
    least = λ s bits lt len h e. least_step metrics r rs state after p later t v s bits lt len h e;
  }

  pub traceback-IsTraced :
      (rs : List (ℕ × ℕ)) (metrics : List Metric) (state : ℕ)
      → state < 64
      → IsTraced metrics rs state (traceback (survivors fl metrics rs) state)
  unfolding traceback survivors end_of path_metric
  traceback-IsTraced [] metrics state lt = record {
    in_range = lt;
    size = refl;
    all_bits = tt;
    ends = refl;
    least = λ s bits hs len h e. least_nil metrics s state bits len e;
  }
  traceback-IsTraced (r ∷ rs) metrics state lt =
      let later = traceback (survivors fl (next_metrics metrics r) rs) state in
      let t = traceback-IsTraced rs (next_metrics metrics r) state lt in
      rw (get_or-states (best_pred fl metrics r) later.0 0 t.in_range) (
        least_cons metrics r rs state later.0 (best_pred fl metrics r later.0) later.1 t
          (best_pred-IsSurvivor metrics r later.0 t.in_range))
