-- ===== src/Examples/Runtime.antt =====
-- The trackers of the runtime at work on a few events.
use okx_rust_trading.Common.{ℕ, ◌≡◌, some, List, [], ◌∷◌, arith, ok}
use okx_rust_trading.TradingRuntime.TickFailure
use okx_rust_trading.TradingRuntime.TickFailure.{
  Tick, succeeds, fails, record_strategy_tick_failure, streak, stops_on_streak,
}
use okx_rust_trading.TradingRuntime.Streams.{
  OkxWebsocketStreamIdentity, OkxWebsocketStreamKind, OkxWebsocketChannelClass,
  OkxWebsocketHealthEventKind, OkxWebsocketHealthEvent,
}
use okx_rust_trading.TradingRuntime.HealthTracker

abbrev ticks : List Tick
ticks = fails 0 ∷ fails 1 ∷ succeeds 0 ∷ fails 1 ∷ []

stops_on_streak_example :
    (record_strategy_tick_failure {E = ℕ} (TickFailure.run (TickFailure.new 2) ticks) 1 7).1
    ≡ ok (some (record { strategy_index = 1; consecutive_failures = 3; error = 7 }))
unfolding streak
stops_on_streak_example = stops_on_streak 2 1 ticks 7 (omega arith)

abbrev market : OkxWebsocketStreamIdentity
market = record {
  kind = OkxWebsocketStreamKind.public;
  channel_class = OkxWebsocketChannelClass.public_market_data;
  instrument_count = 2;
}

abbrev trading : OkxWebsocketStreamIdentity
trading = record {
  kind = OkxWebsocketStreamKind.private;
  channel_class = OkxWebsocketChannelClass.private_trading;
  instrument_count = 2;
}

abbrev streams : List OkxWebsocketStreamIdentity
streams = market ∷ trading ∷ []

abbrev events : List OkxWebsocketHealthEvent
events =
    record { kind = OkxWebsocketHealthEventKind.subscription_ack_succeeded; stream = market }
    ∷ record { kind = OkxWebsocketHealthEventKind.login_failed; stream = trading }
    ∷ []
