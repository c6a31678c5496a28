-- ===== src/TradingRuntime/HealthTracker.antt =====
-- okx-trading-runtime/src/app/websocket_health_tracker.rs: which streams are ready, and which failed
-- before they were.
pub mod Views
pub mod Readiness
pub mod Startup
use okx_rust_trading.Common.{
  ℕ, suc, ◌≡◌, ◌↔◌, refl, Bool, true, false, not, ◌&&◌, ◌||◌, Option, none, some, List, [], ◌∷◌,
  arith, length, All, if◌then◌else◌, is_some, Bool-cases, inl, inr,
}
use okx_rust_trading.Order.{Ord, eq?}
use okx_rust_trading.BTreeMap.{BTreeMap, get, insert, remove}
use okx_rust_trading.BTreeMap.Order.{IsSorted, insert-IsSorted, remove-IsSorted}
use okx_rust_trading.BTreeMap.Lookup.{get-insert, get-remove}
use okx_rust_trading.TradingRuntime.Streams.{
  OkxWebsocketStreamIdentity, OkxWebsocketHealthEventKind, OkxWebsocketHealthEvent, stream_ord,
}

-- A `BTreeSet` of streams.
abbrev pub StreamSet : Type 0
StreamSet = BTreeMap OkxWebsocketStreamIdentity (Unit {0})

abbrev pub contains : OkxWebsocketStreamIdentity → StreamSet → Bool
contains stream set = is_some (get stream set)

pub record WebsocketHealthTracker : Type 0 where
  pub expected_streams : StreamSet
  pub mandatory_streams : StreamSet
  pub ready_streams : StreamSet
  pub ever_ready_streams : StreamSet
  pub failed_before_ready_streams : StreamSet

unfoldable pub collect : List OkxWebsocketStreamIdentity → StreamSet → StreamSet
collect [] set = set
collect (stream ∷ streams) set = collect streams (insert stream tt set)

unfoldable pub new : List OkxWebsocketStreamIdentity → WebsocketHealthTracker
unfolding collect
new streams = record {
  expected_streams = collect streams [];
  mandatory_streams = collect streams [];
  ready_streams = [];
  ever_ready_streams = [];
  failed_before_ready_streams = [];
}

-- What the three arms of `record` do with a stream.
pub data Effect : Type 0 where
  acknowledges fails_stream interrupts : Effect

abbrev pub effect_of : OkxWebsocketHealthEventKind → Effect
effect_of OkxWebsocketHealthEventKind.subscription_ack_succeeded = acknowledges
effect_of OkxWebsocketHealthEventKind.login_failed = fails_stream
effect_of OkxWebsocketHealthEventKind.subscription_ack_failed = fails_stream
effect_of OkxWebsocketHealthEventKind.stream_failed_before_subscription = fails_stream
effect_of OkxWebsocketHealthEventKind.stream_task_panicked = fails_stream
effect_of OkxWebsocketHealthEventKind.stream_task_exited_unexpectedly = fails_stream
effect_of OkxWebsocketHealthEventKind.connect_attempt = interrupts
effect_of OkxWebsocketHealthEventKind.connected = interrupts
effect_of OkxWebsocketHealthEventKind.login_ack_succeeded = interrupts
effect_of OkxWebsocketHealthEventKind.reconnect_scheduled = interrupts
effect_of OkxWebsocketHealthEventKind.stream_disconnected_after_subscription = interrupts
effect_of OkxWebsocketHealthEventKind.stream_failed_after_subscription = interrupts

abbrev apply_effect :
    WebsocketHealthTracker → OkxWebsocketStreamIdentity → Effect → WebsocketHealthTracker
apply_effect tracker stream acknowledges = record tracker {
  ready_streams = insert stream tt tracker.ready_streams;
  ever_ready_streams = insert stream tt tracker.ever_ready_streams;
  failed_before_ready_streams = remove stream tracker.failed_before_ready_streams;
}
apply_effect tracker stream fails_stream = record tracker {
  ready_streams = remove stream tracker.ready_streams;
  failed_before_ready_streams =
      if not (contains stream tracker.ever_ready_streams)
      then insert stream tt tracker.failed_before_ready_streams
      else tracker.failed_before_ready_streams;
}
apply_effect tracker stream interrupts = record tracker {
  ready_streams = remove stream tracker.ready_streams;
}

-- The method `record`.
unfoldable pub record_event :
    WebsocketHealthTracker → OkxWebsocketHealthEvent → WebsocketHealthTracker
record_event tracker event =
    if not (contains event.stream tracker.expected_streams)
    then tracker
    else apply_effect tracker event.stream (effect_of event.kind)

unfoldable pub run : WebsocketHealthTracker → List OkxWebsocketHealthEvent → WebsocketHealthTracker
run tracker [] = tracker
run tracker (event ∷ events) = run (record_event tracker event) events

-- The failed mandatory streams, and what `startup_readiness_error` makes of them.
unfoldable pub failed_streams : WebsocketHealthTracker → StreamSet → List OkxWebsocketStreamIdentity
failed_streams tracker [] = []
failed_streams tracker ((stream, _) ∷ streams) =
    let rest = failed_streams tracker streams in
    if contains stream tracker.failed_before_ready_streams
      && not (contains stream tracker.ready_streams)
    then stream ∷ rest
    else rest

pub record StartupReadinessError : Type 0 where
  pub failed_count : ℕ
  pub first_failed : OkxWebsocketStreamIdentity

abbrev pub readiness_error : List OkxWebsocketStreamIdentity → Option StartupReadinessError
readiness_error [] = none
readiness_error (first ∷ rest) =
    some (record { failed_count = suc (length rest); first_failed = first })

unfoldable pub startup_readiness_error : WebsocketHealthTracker → Option StartupReadinessError
unfolding failed_streams
startup_readiness_error tracker = readiness_error (failed_streams tracker tracker.mandatory_streams)

unfoldable pub is_subset : StreamSet → StreamSet → Bool
is_subset [] set = true
is_subset ((stream, _) ∷ streams) set = contains stream set && is_subset streams set

unfoldable pub all_mandatory_streams_ready : WebsocketHealthTracker → Bool
unfolding is_subset
all_mandatory_streams_ready tracker = is_subset tracker.mandatory_streams tracker.ready_streams
