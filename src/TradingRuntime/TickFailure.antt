-- ===== src/TradingRuntime/TickFailure.antt =====
-- okx-trading-runtime/src/app/strategy_tick_failure.rs: how many ticks of a strategy may fail in a row.
-- The counters are left unbounded; the texts of the errors are the index and what is passed on.
use okx_rust_trading.Common.{
  ℕ, zero, suc, ◌<◌, ◌≡◌, refl, ap, ◌∙◌, Bool, true, false, ◌||◌, Option, none, some, List, [], ◌∷◌,
  arith, ltb, leb, ◌==◌, get_elem?, if◌then◌else◌, Result, ok, err, ◌>>=◌, Option-cases, Bool-cases,
  inl, inr,
}

abbrev pub max_consecutive_strategy_tick_failures : ℕ
max_consecutive_strategy_tick_failures = 3

pub data StrategyTickFailure : Type 0 where
  retry stop : ℕ → StrategyTickFailure

pub record StrategyTickFailureTracker : Type 0 where
  pub consecutive_failures : List ℕ

-- What `bail!` is called with.
pub data TrackerError : Type 0 where
  not_tracked : ℕ → TrackerError

zeros : ℕ → List ℕ
zeros zero = []
zeros (suc n) = 0 ∷ zeros n

-- The list with the value at an index replaced.
unfoldable pub set_at : List ℕ → ℕ → ℕ → List ℕ
set_at [] i v = []
set_at (x ∷ xs) zero v = v ∷ xs
set_at (x ∷ xs) (suc i) v = x ∷ set_at xs i v

unfoldable pub new : ℕ → StrategyTickFailureTracker
unfolding zeros
new strategy_count = record { consecutive_failures = zeros strategy_count }

unfoldable pub record_success :
    StrategyTickFailureTracker → ℕ → StrategyTickFailureTracker × Result (Unit {0}) TrackerError
record_success tracker strategy_index =
    elim (get_elem? tracker.consecutive_failures strategy_index) [
      | none ↦ (tracker, err (not_tracked strategy_index))
      | some consecutive_failures ↦ (
        record { consecutive_failures = set_at tracker.consecutive_failures strategy_index 0 },
        ok tt,
      )
    ]

abbrev pub failure_of : ℕ → StrategyTickFailure
failure_of count =
    if leb max_consecutive_strategy_tick_failures count then stop count else retry count

unfoldable pub record_failure :
    StrategyTickFailureTracker
    → ℕ
    → StrategyTickFailureTracker × Result StrategyTickFailure TrackerError
record_failure tracker strategy_index =
    elim (get_elem? tracker.consecutive_failures strategy_index) [
      | none ↦ (tracker, err (not_tracked strategy_index))
      | some consecutive_failures ↦
          let count = suc consecutive_failures in
          (
            record {
              consecutive_failures = set_at tracker.consecutive_failures strategy_index count;
            },
            ok (failure_of count),
          )
    ]

abbrev any_positive : List ℕ → Bool
any_positive [] = false
any_positive (count ∷ counts) = ltb 0 count || any_positive counts

unfoldable pub has_failures : StrategyTickFailureTracker → Bool
has_failures tracker = any_positive tracker.consecutive_failures

-- The error that stops the runtime: the index, the number of failures, the error of the tick.
pub record Stopped (E : Type 0) : Type 0 where
  pub strategy_index : ℕ
  pub consecutive_failures : ℕ
  pub error : E

module _ {E : Type 0} where
  abbrev pub stop_of : ℕ → E → StrategyTickFailure → Option (Stopped E)
  stop_of strategy_index error (retry count) = none
  stop_of strategy_index error (stop count) =
      some (record { strategy_index = strategy_index; consecutive_failures = count; error = error })

  unfoldable pub record_strategy_tick_failure :
      StrategyTickFailureTracker
      → ℕ
      → E
      → StrategyTickFailureTracker × Result (Option (Stopped E)) TrackerError
  record_strategy_tick_failure tracker strategy_index error =
      let (tracker', result) = record_failure tracker strategy_index in
      (tracker', (do failure ← result; ok (stop_of strategy_index error failure)))

-- The ticks of the strategies, in the order in which they end.
pub data Tick : Type 0 where
  succeeds fails : ℕ → Tick

unfoldable pub step : StrategyTickFailureTracker → Tick → StrategyTickFailureTracker
step tracker (succeeds i) = (record_success tracker i).0
step tracker (fails i) = (record_failure tracker i).0

unfoldable pub run : StrategyTickFailureTracker → List Tick → StrategyTickFailureTracker
unfolding step
run tracker [] = tracker
run tracker (tick ∷ ticks) = run (step tracker tick) ticks

-- How many ticks of a strategy failed since its last success, after `count` before.
unfoldable pub streak : ℕ → ℕ → List Tick → ℕ
streak i count [] = count
streak i count (succeeds j ∷ ticks) = streak i (if i == j then 0 else count) ticks
streak i count (fails j ∷ ticks) = streak i (if i == j then suc count else count) ticks

get_elem?-set_at :
    (xs : List ℕ) (i j v : ℕ) {old : ℕ}
    → get_elem? xs i ≡ some old
    → get_elem? (set_at xs j v) i ≡ (if i == j then some v else some old)
unfolding set_at
get_elem?-set_at [] i j v h = cc
get_elem?-set_at (x ∷ xs) zero zero v h = refl
get_elem?-set_at (x ∷ xs) zero (suc j) v h = ground arith
get_elem?-set_at (x ∷ xs) (suc i) zero v h = ground arith
get_elem?-set_at (x ∷ xs) (suc i) (suc j) v h = ground (arith, get_elem?-set_at xs i j v h)

get_elem?-zeros : (n i : ℕ) → i < n → get_elem? (zeros n) i ≡ some 0
unfolding zeros
get_elem?-zeros zero i h = absurd (omega arith)
get_elem?-zeros (suc n) zero h = refl
get_elem?-zeros (suc n) (suc i) h = get_elem?-zeros n i (omega arith)

step_succeeds :
    (tracker : StrategyTickFailureTracker) (i j count : ℕ)
    → get_elem? tracker.consecutive_failures i ≡ some count
    → get_elem? (step tracker (succeeds j)).consecutive_failures i
      ≡ some (if i == j then 0 else count)
unfolding step record_success
step_succeeds tracker i j count h =
    ground (arith, get_elem?-set_at tracker.consecutive_failures i j 0 h)

-- The same element twice.
get_elem?-same :
    (xs : List ℕ) (i j : ℕ) {a b : ℕ}
    → get_elem? xs i ≡ some a
    → get_elem? xs j ≡ some b
    → (i == j) ≡ true
    → a ≡ b
get_elem?-same xs i j h k e = let same : i ≡ j = ground arith in let there = rw same at h in cc

get_elem?-other :
    (xs : List ℕ) (i j : ℕ) {a : ℕ}
    → get_elem? xs i ≡ some a
    → get_elem? xs j ≡ none
    → (i == j) ≡ false
get_elem?-other xs i j h k = elim (Bool-cases (i == j)) [
  | inr differ ↦ differ
  | inl equal ↦ let same : i ≡ j = ground arith in let there = rw same at h in cc
]

step_fails :
    (tracker : StrategyTickFailureTracker) (i j count : ℕ)
    → get_elem? tracker.consecutive_failures i ≡ some count
    → get_elem? (step tracker (fails j)).consecutive_failures i
      ≡ some (if i == j then suc count else count)
unfolding step record_failure
step_fails tracker i j count h = elim (Option-cases (get_elem? tracker.consecutive_failures j)) [
  | inl absent ↦ ground (arith, get_elem?-other tracker.consecutive_failures i j h absent)
  | inr (c, there) ↦ ground (
    arith,
    get_elem?-set_at tracker.consecutive_failures i j (suc c) h,
    get_elem?-same tracker.consecutive_failures i j h there,
  )
]

run-streak :
    (tracker : StrategyTickFailureTracker) (i count : ℕ) (ticks : List Tick)
    → get_elem? tracker.consecutive_failures i ≡ some count
    → get_elem? (run tracker ticks).consecutive_failures i ≡ some (streak i count ticks)
unfolding run streak
run-streak tracker i count [] h = h
run-streak tracker i count (succeeds j ∷ ticks) h =
    run-streak (step tracker (succeeds j)) i _ ticks (step_succeeds tracker i j count h)
run-streak tracker i count (fails j ∷ ticks) h =
    run-streak (step tracker (fails j)) i _ ticks (step_fails tracker i j count h)

-- From the third failure on the answer is to stop.
stop_of-failure_of :
    {E : Type 0} (i failures : ℕ) (error : E)
    → stop_of i error (failure_of failures) ≡ (
        if ltb failures 3
        then none
        else some (record { strategy_index = i; consecutive_failures = failures; error = error }))
stop_of-failure_of i failures error = ground arith

record_strategy_tick_failure-some :
    {E : Type 0} (tracker : StrategyTickFailureTracker) (i count : ℕ) (error : E)
    → get_elem? tracker.consecutive_failures i ≡ some count
    → (record_strategy_tick_failure tracker i error).1
      ≡ ok (stop_of i error (failure_of (suc count)))
unfolding record_strategy_tick_failure record_failure
record_strategy_tick_failure-some tracker i count error h =
    rw (h, record_strategy_tick_failure, record_failure)

-- After any ticks of a new tracker, a failure of a strategy that it tracks is answered by its
-- streak: the failures of that strategy since its last success, whatever the other strategies did.
-- From the third failure on the answer stops the runtime, with the index, the number of failures
-- and the error, and before the third it does not.
pub stops_on_streak :
    {E : Type 0} (strategy_count i : ℕ) (ticks : List Tick) (error : E)
    → i < strategy_count
    → let failures = suc (streak i 0 ticks) in
      (record_strategy_tick_failure (run (new strategy_count) ticks) i error).1
      ≡ ok (
          if ltb failures 3
          then none
          else some (record { strategy_index = i; consecutive_failures = failures; error = error }))
unfolding new
stops_on_streak strategy_count i ticks error h =
    let failures = suc (streak i 0 ticks) in
    let tracked =
      record_strategy_tick_failure-some (run (new strategy_count) ticks) i (streak i 0 ticks) error
        (run-streak (new strategy_count) i 0 ticks (get_elem?-zeros strategy_count i h)) in
    tracked ∙ ap ok (stop_of-failure_of i failures error)
