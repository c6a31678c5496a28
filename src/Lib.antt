-- ===== src/Lib.antt =====
-- A model of the market-data core and of a strategy of okx-rust-trading, and what it guarantees.
--
-- The program has three crates. `crates/okx-public-protocol` validates the payloads of OKX's public
-- channels. `crates/okx-market-model` keeps two order books: `replay_book.rs` replays archived
-- events, `level2.rs` follows the live stream and publishes features of the book.
-- `crates/okx-trading-runtime` drives the network, the strategies and the configuration. The first
-- two are modelled here, and of the third the trackers that decide when the runtime must stop, the
-- records of the exchange, and the strategy that buys with post-only orders and protects what it
-- holds by a take-profit order and a stop loss.
--
-- A message of the `books` channel goes through `parse_books_message`, becomes an update by
-- `OkxLevel2Update::from_validated`, and is applied by `OkxLevel2Book::apply_with_clock`.
--
-- Files and code:
--   PublicProtocol/*       crates/okx-public-protocol/src/lib.rs. Instrument: the identity
--                          `OkxSpotInstrumentId` and `validate_spot_instrument_id`. Error:
--                          `OkxPublicProtocolError`. Books, Trades: `parse_books_message` and
--                          `parse_trade_message`, with the deserializers that the program writes.
--                          Archive: the row `OkxPublicTrade` of a trade archive.
--   ReplayBook, its files  crates/okx-market-model/src/replay_book.rs. Types: its data. ReplayBook:
--                          `new`, `reset`, `mark_untrusted`, `apply`, `apply_historical`. Queries:
--                          what the other methods answer.
--   Level2, its files      crates/okx-market-model/src/level2.rs. Types: its data. Sides: the free
--                          functions on one side. Features, Features/Rolling: the features. Publish:
--                          `calculate_features`. Level2: the operations, which return the book as
--                          they leave it, with the answer.
--   TradingRuntime/*       crates/okx-trading-runtime/src. TickFailure: app/strategy_tick_failure.rs.
--                          HealthTracker: app/websocket_health_tracker.rs; Streams: the identities
--                          and events of okx/websocket/health.rs that it reads.
--   TradingRuntime/OrderId, its files
--                          crates/okx-trading-runtime/src/strategies/okx_ema_atr_maker_trend/
--                          order_id.rs. Base36, Tags, RoundTrip, Parser, Distinct are about the
--                          ids built there.
--   TradingRuntime/Okx/*   crates/okx-trading-runtime/src/okx. Numbers, Orders, Algo, Accounting:
--                          types.rs. Instrument: types.rs and the limit on quote amounts of
--                          trading_instrument.rs. Client: the trait `OkxClient` of client.rs. Errors:
--                          the errors of these files and of the strategy, told apart.
--   TradingRuntime/MakerTrend/*
--                          crates/okx-trading-runtime/src/strategies/okx_ema_atr_maker_trend.rs and
--                          its folder. Indicators, Signal: signal.rs. Types: the runner and its
--                          state. Action: how a method runs. Prices, Fills: the pure functions.
--                          Evidence: `strategy_fill_evidence`. Inventory: inventory.rs and the
--                          balance. Reconstruct: `reconstruct_position_from_evidence` and
--                          `finalize_reconstructed_position`. Shutdown: shutdown.rs. Protection:
--                          cancelling, placing and amending the two protecting orders. Refresh:
--                          `refresh_entry_order`, `refresh_take_profit_order`.
--                          StopLoss: `refresh_stop_loss_order`; StopLoss/Exit: the market exit and
--                          `evaluate_stop_loss`. Entry: entry_submission.rs. Exits, Sound, AtMost:
--                          what the methods leave as it was.
--   BTreeMap, Text         what the code uses of `std`: a map as an ascending list of entries, and a
--                          text as the list of its bytes.
--   Order, Decimal         `rust_decimal::Decimal`, a package of its own: a type with an order and
--                          operations, the parameters `Ord` and `Decimal`. `IsLawful` lists what
--                          some theorems rely on; Decimal/Integers shows that the integers meet it.
--   Common                 Boolean tests, lists, integers and results.
--   Examples               the theorems at concrete inputs.
--
-- Other parameters: `serde_json` is a function from the text of a payload to its rows, which may
-- refuse. `f64` is a type with operations, `Float`, and `Decimal::from_f64` is `FromFloat`. A client
-- of the exchange is the instance `OkxClient` over a type of what lies behind it: each call returns
-- an answer, or an error, and what lies behind afterwards; its clock is one more call. The clock of
-- a consumer is a function from the number of a call to an instant, and an instant is a number of
-- nanoseconds.
--
-- Conventions. A field `data` of the code is `payload` here. `&mut self` is a book in and a book
-- out. `epoch` and `generation` saturate at the greatest u64, as in the code; the counters of an
-- `ApplyOutcome` are bounded by the length of an event, the counters of failed ticks by the number
-- of ticks, and both are left unbounded. The loop of
-- `trim_to_depth` runs on fuel, the length of the side: a round removes one level, so that is
-- enough, and `trim_to_depth_lem` describes the end of the loop. The other loops of the two
-- crates run over a list.
--
-- A method of the runner is a function from the world, which is the runner, the client and the
-- counter of order ids, to a result and the world; what is written before an error stays. `base36`
-- divides on fuel of 13 rounds, enough for a u64, since 36 ^ 13 exceeds 2 ^ 64. Logging and
-- `record_order_decision`, which only measures latency, are left out.
--
-- Not modelled: the panic of a Decimal operation that overflows; the texts of errors beyond what
-- tells them apart; of the strategy the queries of its start, its fee schedule and its outer
-- handlers of events, so that a shutdown is modelled from where the runner is initialized; and the
-- rest of `crates/okx-trading-runtime`, which is mostly network code.
pub mod Common
pub mod Order
pub mod BTreeMap
pub mod Text
pub mod Decimal
pub mod PublicProtocol
pub mod ReplayBook
pub mod Level2
pub mod TradingRuntime
pub mod Examples
