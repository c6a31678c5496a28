-- ===== src/TradingRuntime/HealthTracker/Readiness.antt =====
-- okx-trading-runtime/src/app/websocket_health_tracker.rs: the answers as statements on the events.
use okx_rust_trading.Common.{◌≡◌, Bool, true, false, not, ◌&&◌, ◌||◌, List, [], ◌∷◌}
use okx_rust_trading.BTreeMap.{insert}
use okx_rust_trading.BTreeMap.Order.{IsSorted, insert-IsSorted}
use okx_rust_trading.TradingRuntime.Streams.{
  OkxWebsocketStreamIdentity, OkxWebsocketHealthEvent, stream_ord,
}
use okx_rust_trading.TradingRuntime.HealthTracker.{
  StreamSet, Effect, acknowledges, fails_stream, interrupts, effect_of, collect,
}
use okx_rust_trading.TradingRuntime.HealthTracker.Views.{View, concerns}

abbrev is_ack : Effect → Bool
is_ack acknowledges = true
is_ack fails_stream = false
is_ack interrupts = false

abbrev is_failure : Effect → Bool
is_failure acknowledges = false
is_failure fails_stream = true
is_failure interrupts = false

-- Whether some event acknowledged the subscription of a stream, and whether some event failed it.
pub acknowledged : OkxWebsocketStreamIdentity → List OkxWebsocketHealthEvent → Bool
acknowledged s [] = false
acknowledged s (event ∷ events) =
    (concerns s event && is_ack (effect_of event.kind)) || acknowledged s events

pub failed : OkxWebsocketStreamIdentity → List OkxWebsocketHealthEvent → Bool
failed s [] = false
failed s (event ∷ events) =
    (concerns s event && is_failure (effect_of event.kind)) || failed s events

-- What the events make of the view of an expected stream.
record IsSummary (before after : View) (acked any_failed : Bool) : Type 0 where
  ever : after.1 ≡ (before.1 || acked)
  failed_first : after.2 ≡ (not (before.1 || acked) && (before.2 || any_failed))
  ready_was : (after.0 && not after.1) ≡ false

-- A stream that failed before it was ready was never ready, and one that is ready was.
abbrev IsConsistent : View → Type 0
IsConsistent v = ((v.2 && v.1) ≡ false) × ((v.0 && not v.1) ≡ false)

pub collect-IsSorted :
    (streams : List OkxWebsocketStreamIdentity) (set : StreamSet)
    → IsSorted set
    → IsSorted (collect streams set)
unfolding collect
collect-IsSorted [] set s = s
collect-IsSorted (stream ∷ streams) set s =
    collect-IsSorted streams (insert stream tt set) (insert-IsSorted stream tt set s)

-- What `startup_readiness_error` looks for in a stream, after events.
abbrev pub only_failed : OkxWebsocketStreamIdentity → List OkxWebsocketHealthEvent → Bool
only_failed s events = failed s events && not (acknowledged s events)
