-- ===== src/TradingRuntime/HealthTracker/Startup.antt =====
-- okx-trading-runtime/src/app/websocket_health_tracker.rs: when the startup is refused.
use okx_rust_trading.Common.{Bool, not, ◌&&◌}
use okx_rust_trading.TradingRuntime.Streams.{OkxWebsocketStreamIdentity, stream_ord}
use okx_rust_trading.TradingRuntime.HealthTracker.{contains, WebsocketHealthTracker}

-- The test of a stream in `startup_readiness_error`.
abbrev is_refused : WebsocketHealthTracker → OkxWebsocketStreamIdentity → Bool
is_refused tracker s =
    contains s tracker.failed_before_ready_streams && not (contains s tracker.ready_streams)
