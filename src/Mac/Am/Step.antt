-- ===== src/Mac/Am/Step.antt =====
-- What a STATUS report means for one buffered PDU, and that the loop over the buffer, which
-- changes it as it goes, does that to every one of them.
use spectracuda.Common.{
  IsDict, insert-IsDict, remove-IsDict, inl, inr, ap₂, ℕ, suc, ◌+◌, ◌≤◌, ◌≡◌, ◌∙◌, refl, sym, ap,
  List, [], ◌∷◌, ◌++◌, Bool, true, false, ◌||◌, arith, Outcome, ok, ◌>>=◌, leb, ◌==◌, if◌then◌else◌,
  length, get_elem?, Option, none, some, All, Option-cases, Dict, lookup, has_key, contains,
  lookup-insert, lookup-remove, contains-add, is_some,
}
use spectracuda.Mac.Pdu.{sn_distance, sn_precedes}
use spectracuda.Mac.Am.{AmEntity, Sent, status_round, status_loop}

pub data Verdict : Type 0 where
  acknowledged waiting again given_up : Verdict

abbrev pub marked : Option ℕ → Bool
marked none = false
marked (some bit) = if bit == 0 then false else true

-- The report acknowledges what comes before its base and what its bitmap marks; it says nothing of
-- what lies beyond the bitmap; the rest is sent again until the retries are used up.
unfoldable pub judge : ℕ → ℕ → ℕ → List ℕ → ℕ → ℕ → Verdict
judge window_size max_retries base_sn bitmap sn retry_count =
    if sn_precedes sn base_sn
    then acknowledged
    else if leb window_size (sn_distance base_sn sn)
    then waiting
    else if marked (get_elem? bitmap (sn_distance base_sn sn))
    then acknowledged
    else if leb (suc retry_count) max_retries
    then again
    else given_up

abbrev pub settle : Verdict → Sent → Option Sent
settle acknowledged e = none
settle waiting e = some e
settle again e = some (record e { retry_count = e.retry_count + 1 })
settle given_up e = none

abbrev pub resend : Verdict → Sent → List (List ℕ)
resend again e = e.pdu_bits ∷ []
resend _ e = []

abbrev pub is_given_up : Verdict → Bool
is_given_up given_up = true
is_given_up _ = false

has_key-some : (k : ℕ) (d : Dict Sent) → has_key k d ≡ true → (e : Sent) × (lookup k d ≡ some e)
has_key-some k d h = elim (Option-cases (lookup k d)) [
  | inl e ↦ cc (sym h ∙ ap is_some e)
  | inr found ↦ found
]

-- No number is there twice.
abbrev pub Distinct : List ℕ → Type 0
Distinct [] = Unit
Distinct (k ∷ ks) = (contains k ks ≡ false) × Distinct ks

get_elem?-none : (xs : List ℕ) (i : ℕ) → get_elem? xs i ≡ none → length xs ≤ i
get_elem?-none [] i h = omega arith
get_elem?-none (x ∷ xs) ℕ.zero h = cc
get_elem?-none (x ∷ xs) (suc i) h = omega (arith, get_elem?-none xs i h)

module _ (base_sn : ℕ) (bitmap : List ℕ) where
  module _ (a : AmEntity) where
    abbrev pub verdict : ℕ → Sent → Verdict
    verdict sn e = judge a.window_size a.max_retries base_sn bitmap sn e.retry_count

    abbrev pub settled : ℕ → Option Sent → Option Sent
    settled sn none = none
    settled sn (some e) = settle (verdict sn e) e

    abbrev pub resent : ℕ → Option Sent → List (List ℕ)
    resent sn none = []
    resent sn (some e) = resend (verdict sn e) e

    abbrev pub fails : ℕ → Option Sent → Bool
    fails sn none = false
    fails sn (some e) = is_given_up (verdict sn e)

  -- The PDUs that are sent again for the numbers `sns`, in their order.
  abbrev pub all_resent : AmEntity → List ℕ → Dict Sent → List (List ℕ)
  all_resent a [] d = []
  all_resent a (sn ∷ sns) d = resent a sn (lookup sn d) ++ all_resent a sns d

  -- What a round of the loop does for the number `sn`.
  record Round (sn : ℕ) (a : AmEntity) (r : Outcome (List (List ℕ)) × AmEntity) : Type 0 where
    after : AmEntity
    returns : r ≡ (ok (resent a sn (lookup sn a.retx_buffer)), after)
    buffer :
        (j : ℕ)
        → lookup j after.retx_buffer
          ≡ (if sn == j then settled a sn (lookup sn a.retx_buffer) else lookup j a.retx_buffer)
    failed :
        (j : ℕ)
        → contains j after.failed_sns ≡ (
            if sn == j
            then fails a sn (lookup sn a.retx_buffer) || contains j a.failed_sns
            else contains j a.failed_sns)
    dict : IsDict a.retx_buffer → IsDict after.retx_buffer
    same_um : after.um ≡ a.um
    same_window : after.window_size ≡ a.window_size
    same_retries : after.max_retries ≡ a.max_retries
    same_received : after.received_sns ≡ a.received_sns

  status_round-Round :
      (sn : ℕ) (a : AmEntity) (e : Sent)
      → length bitmap ≡ a.window_size
      → lookup sn a.retx_buffer ≡ some e
      → Round sn a (status_round base_sn bitmap sn a)
  unfolding status_round judge
  status_round-Round sn a e full here = record {
    after = (status_round base_sn bitmap sn a).1;
    returns = ground (arith, here, get_elem?-none bitmap (sn_distance base_sn sn));
    buffer = λ j. ground (
      arith,
      here,
      lookup-remove sn j a.retx_buffer,
      lookup-insert sn j (record e { retry_count = e.retry_count + 1 }) a.retx_buffer,
      get_elem?-none bitmap (sn_distance base_sn sn),
    );
    failed = λ j. ground (
      arith,
      here,
      contains-add sn j a.failed_sns,
      get_elem?-none bitmap (sn_distance base_sn sn),
    );
    dict = λ d. ground (
      arith,
      here,
      remove-IsDict sn a.retx_buffer d,
      insert-IsDict sn (record e { retry_count = e.retry_count + 1 }) a.retx_buffer d,
    );
    same_um = ground (arith, here);
    same_window = ground (arith, here);
    same_retries = ground (arith, here);
    same_received = ground (arith, here);
  }

  module _ (sn : ℕ) (a : AmEntity) (r : Outcome (List (List ℕ)) × AmEntity)
      (one : Round sn a r) where
    -- A round for another number changes nothing of these.
    keeps_keys :
        (sns : List ℕ)
        → contains sn sns ≡ false
        → All (λ k. has_key k a.retx_buffer ≡ true) sns
        → All (λ k. has_key k one.after.retx_buffer ≡ true) sns
    unfolding contains
    keeps_keys [] n h = tt
    keeps_keys (k ∷ sns) n h =
        (ground (arith, one.buffer k, h.0), keeps_keys sns (ground arith) h.1)

    keeps_resent :
        (sns : List ℕ)
        → contains sn sns ≡ false
        → all_resent one.after sns one.after.retx_buffer ≡ all_resent a sns a.retx_buffer
    unfolding contains
    keeps_resent [] n = refl
    keeps_resent (k ∷ sns) n =
        ap₂ ◌++◌ (resent_same (ground (arith, one.buffer k))) (keeps_resent sns (ground arith))
      where
        resent_same :
            lookup k one.after.retx_buffer ≡ lookup k a.retx_buffer
            → resent one.after k (lookup k one.after.retx_buffer)
              ≡ resent a k (lookup k a.retx_buffer)
        resent_same e = rw (e, one.same_window, one.same_retries)

    loop-cons :
        (sns : List ℕ)
        → status_round base_sn bitmap sn a ≡ r
        → status_loop base_sn bitmap (sn ∷ sns) a ≡ (
          (do
            more ← (status_loop base_sn bitmap sns one.after).0
            ok (resent a sn (lookup sn a.retx_buffer) ++ more)),
          (status_loop base_sn bitmap sns one.after).1,
        )
    unfolding status_loop
    loop-cons sns e = rw (e ∙ one.returns) refl

  -- What the loop over the numbers `sns` does.
  pub record Rounds (sns : List ℕ) (a : AmEntity) (r : Outcome (List (List ℕ)) × AmEntity)
      : Type 0 where
    pub after : AmEntity
    pub returns : r ≡ (ok (all_resent a sns a.retx_buffer), after)
    pub buffer :
        (j : ℕ)
        → lookup j after.retx_buffer ≡ (
            if contains j sns then settled a j (lookup j a.retx_buffer) else lookup j a.retx_buffer)
    pub failed :
        (j : ℕ)
        → contains j after.failed_sns ≡ (
            if contains j sns
            then fails a j (lookup j a.retx_buffer) || contains j a.failed_sns
            else contains j a.failed_sns)
    pub dict : IsDict a.retx_buffer → IsDict after.retx_buffer
    pub same_um : after.um ≡ a.um
    pub same_window : after.window_size ≡ a.window_size
    pub same_retries : after.max_retries ≡ a.max_retries
    pub same_received : after.received_sns ≡ a.received_sns

  pub loop-Rounds :
      (sns : List ℕ) (a : AmEntity)
      → length bitmap ≡ a.window_size
      → Distinct sns
      → All (λ sn. has_key sn a.retx_buffer ≡ true) sns
      → Rounds sns a (status_loop base_sn bitmap sns a)
  unfolding status_loop contains
  loop-Rounds [] a full d h = record {
    after = a;
    returns = refl;
    buffer = λ j. refl;
    failed = λ j. refl;
    dict = λ d. d;
    same_um = refl;
    same_window = refl;
    same_retries = refl;
    same_received = refl;
  }
  loop-Rounds (sn ∷ sns) a full d h =
      let (e, here) = has_key-some sn a.retx_buffer h.0 in
      let one : Round sn a (status_round base_sn bitmap sn a) =
        status_round-Round sn a e full here in
      let rest : Rounds sns one.after (status_loop base_sn bitmap sns one.after) =
        loop-Rounds sns one.after (full ∙ sym one.same_window) d.1
          (keeps_keys sn a (status_round base_sn bitmap sn a) one sns d.0 h.1) in
      record {
        after = rest.after;
        returns =
            loop-cons sn a _ one sns refl ∙ rw (rest.returns, keeps_resent sn a _ one sns d.0) refl;
        buffer = λ j.
            ground (arith, rest.buffer j, one.buffer j, d.0, one.same_window, one.same_retries);
        failed = λ j. ground (
          arith,
          rest.failed j,
          one.failed j,
          one.buffer j,
          d.0,
          one.same_window,
          one.same_retries,
        );
        dict = λ i. rest.dict (one.dict i);
        same_um = rest.same_um ∙ one.same_um;
        same_window = rest.same_window ∙ one.same_window;
        same_retries = rest.same_retries ∙ one.same_retries;
        same_received = rest.same_received ∙ one.same_received;
      }
