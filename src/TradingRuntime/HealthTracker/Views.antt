-- ===== src/TradingRuntime/HealthTracker/Views.antt =====
-- okx-trading-runtime/src/app/websocket_health_tracker.rs: what one event does to one stream.
use okx_rust_trading.Common.{
  ◌≡◌, ◌≢◌, refl, ap, ◌∙◌, Bool, true, false, not, ◌||◌, none, some, List, [], ◌∷◌, arith,
  if◌then◌else◌, is_some, Bool-cases, inl, inr,
}
use okx_rust_trading.Order.{eq?, eq?_iff}
use okx_rust_trading.BTreeMap.{get, insert}
use okx_rust_trading.BTreeMap.Order.{IsSorted, insert-IsSorted, remove-IsSorted}
use okx_rust_trading.BTreeMap.Lookup.{get-insert, get-remove}
use okx_rust_trading.TradingRuntime.Streams.{
  OkxWebsocketStreamIdentity, OkxWebsocketHealthEvent, stream_ord,
}
use okx_rust_trading.TradingRuntime.HealthTracker.{
  StreamSet, contains, WebsocketHealthTracker, Effect, acknowledges, fails_stream, interrupts,
  effect_of, apply_effect, record_event, run,
}

-- The sets that lose streams stay sorted.
pub record IsWellFormed (tracker : WebsocketHealthTracker) : Type 0 where
  pub ready_sorted : IsSorted tracker.ready_streams
  pub failed_sorted : IsSorted tracker.failed_before_ready_streams

apply_effect-IsWellFormed :
    (tracker : WebsocketHealthTracker) (stream : OkxWebsocketStreamIdentity) (effect : Effect)
    → IsWellFormed tracker
    → IsWellFormed (apply_effect tracker stream effect)
apply_effect-IsWellFormed tracker stream acknowledges w = record {
  ready_sorted = insert-IsSorted stream tt tracker.ready_streams w.ready_sorted;
  failed_sorted = remove-IsSorted stream tracker.failed_before_ready_streams w.failed_sorted;
}
apply_effect-IsWellFormed tracker stream fails_stream w = record {
  ready_sorted = remove-IsSorted stream tracker.ready_streams w.ready_sorted;
  failed_sorted = ground (
    arith,
    w.failed_sorted,
    insert-IsSorted stream tt tracker.failed_before_ready_streams w.failed_sorted,
  );
}
apply_effect-IsWellFormed tracker stream interrupts w = record {
  ready_sorted = remove-IsSorted stream tracker.ready_streams w.ready_sorted;
  failed_sorted = w.failed_sorted;
}

pub record_event-IsWellFormed :
    (tracker : WebsocketHealthTracker) (event : OkxWebsocketHealthEvent)
    → IsWellFormed tracker
    → IsWellFormed (record_event tracker event)
unfolding record_event
record_event-IsWellFormed tracker event w =
    elim (Bool-cases (contains event.stream tracker.expected_streams)) [
      | inl known ↦
          rw (known, record_event)
            (apply_effect-IsWellFormed tracker event.stream (effect_of event.kind) w)
      | inr foreign ↦ rw (foreign, record_event) w
    ]

-- What the tracker knows of one stream: ready now, ready ever, failed before it was ready.
abbrev pub View : Type 0
View = Bool × Bool × Bool

abbrev pub view : OkxWebsocketStreamIdentity → WebsocketHealthTracker → View
view stream tracker = (
  contains stream tracker.ready_streams,
  contains stream tracker.ever_ready_streams,
  contains stream tracker.failed_before_ready_streams,
)

abbrev pub next_view : Effect → View → View
next_view acknowledges (ready, ever, failed) = (true, true, false)
next_view fails_stream (ready, ever, failed) = (false, ever, failed || not ever)
next_view interrupts (ready, ever, failed) = (false, ever, failed)

abbrev pub concerns : OkxWebsocketStreamIdentity → OkxWebsocketHealthEvent → Bool
concerns stream event = eq? stream event.stream

contains_same :
    (s stream : OkxWebsocketStreamIdentity) (set : StreamSet)
    → eq? s stream ≡ true
    → contains s set ≡ contains stream set
contains_same s stream set e = ap (λ t. contains t set) ((eq?_iff s stream).0 e)

-- The view of a stream after a failure of `stream`, with the test of equality generalised.
failed-view :
    (same ever : Bool) (s stream : OkxWebsocketStreamIdentity) (tracker : WebsocketHealthTracker)
    → get s (insert stream tt tracker.failed_before_ready_streams)
      ≡ (if same then some tt else get s tracker.failed_before_ready_streams)
    → (same ≡ true → contains s tracker.ever_ready_streams ≡ ever)
    → (
      is_some (if same then none else get s tracker.ready_streams),
      contains s tracker.ever_ready_streams,
      contains s (
          if not ever
          then insert stream tt tracker.failed_before_ready_streams
          else tracker.failed_before_ready_streams),
    )
      ≡ (if same then next_view fails_stream (view s tracker) else view s tracker)
failed-view false false s stream tracker h k = rw h refl
failed-view false true s stream tracker h k = refl
failed-view true false s stream tracker h k = rw (h, k refl) (ground arith)
failed-view true true s stream tracker h k = rw (k refl) (ground arith)

apply_effect-view :
    (s : OkxWebsocketStreamIdentity) (tracker : WebsocketHealthTracker)
    (stream : OkxWebsocketStreamIdentity) (effect : Effect)
    → IsWellFormed tracker
    → view s (apply_effect tracker stream effect)
      ≡ (if eq? s stream then next_view effect (view s tracker) else view s tracker)
apply_effect-view s tracker stream acknowledges w =
    rw
      (
        get-insert s stream tt tracker.ready_streams,
        get-insert s stream tt tracker.ever_ready_streams,
        get-remove s stream tracker.failed_before_ready_streams w.failed_sorted,
      )
      (ground arith)
apply_effect-view s tracker stream fails_stream w =
    rw (get-remove s stream tracker.ready_streams w.ready_sorted) (
      failed-view (eq? s stream) (contains stream tracker.ever_ready_streams) s stream tracker
        (get-insert s stream tt tracker.failed_before_ready_streams)
        (contains_same s stream tracker.ever_ready_streams))
apply_effect-view s tracker stream interrupts w =
    rw (get-remove s stream tracker.ready_streams w.ready_sorted) (ground arith)

pub record_event-view :
    (s : OkxWebsocketStreamIdentity) (tracker : WebsocketHealthTracker)
    (event : OkxWebsocketHealthEvent)
    → IsWellFormed tracker
    → contains s tracker.expected_streams ≡ true
    → view s (record_event tracker event) ≡ (
        if concerns s event
        then next_view (effect_of event.kind) (view s tracker)
        else view s tracker)
unfolding record_event
record_event-view s tracker event w x =
    elim (Bool-cases (contains event.stream tracker.expected_streams)) [
      | inl known ↦
          rw (known, record_event)
            (apply_effect-view s tracker event.stream (effect_of event.kind) w)
      | inr foreign ↦
          rw (foreign, record_event)
            (untouched (concerns s event) (view s tracker) (effect_of event.kind)
              (λ e. cc (contains_same s event.stream tracker.expected_streams e)))
    ]
  where
    untouched :
        (b : Bool) (v : View) (effect : Effect)
        → b ≢ true
        → v ≡ (if b then next_view effect v else v)
    untouched true v effect n = absurd (n refl)
    untouched false v effect n = refl

abbrev pub KeepsStreams : WebsocketHealthTracker → WebsocketHealthTracker → Type 0
KeepsStreams before after =
    (after.expected_streams ≡ before.expected_streams)
    × (after.mandatory_streams ≡ before.mandatory_streams)

apply_effect-KeepsStreams :
    (tracker : WebsocketHealthTracker) (stream : OkxWebsocketStreamIdentity) (effect : Effect)
    → KeepsStreams tracker (apply_effect tracker stream effect)
apply_effect-KeepsStreams tracker stream acknowledges = (refl, refl)
apply_effect-KeepsStreams tracker stream fails_stream = (refl, refl)
apply_effect-KeepsStreams tracker stream interrupts = (refl, refl)

pub record_event-KeepsStreams :
    (tracker : WebsocketHealthTracker) (event : OkxWebsocketHealthEvent)
    → KeepsStreams tracker (record_event tracker event)
unfolding record_event
record_event-KeepsStreams tracker event =
    elim (Bool-cases (contains event.stream tracker.expected_streams)) [
      | inl known ↦
          rw (known, record_event)
            (apply_effect-KeepsStreams tracker event.stream (effect_of event.kind))
      | inr foreign ↦ rw (foreign, record_event) (refl, refl)
    ]

pub run-KeepsStreams :
    (tracker : WebsocketHealthTracker) (events : List OkxWebsocketHealthEvent)
    → KeepsStreams tracker (run tracker events)
unfolding run
run-KeepsStreams tracker [] = (refl, refl)
run-KeepsStreams tracker (event ∷ events) =
    let later = run-KeepsStreams (record_event tracker event) events in
    let now = record_event-KeepsStreams tracker event in (later.0 ∙ now.0, later.1 ∙ now.1)
