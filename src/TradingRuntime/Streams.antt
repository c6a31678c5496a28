-- ===== src/TradingRuntime/Streams.antt =====
-- okx-trading-runtime/src/okx/websocket/health.rs: the identity of a stream, with its derived order,
-- and the events that a stream reports.
use Prim.Native.Nat.{compare}
use okx_rust_trading.Common.{ℕ, ◌≡◌, arith, Ordering}
use okx_rust_trading.Order.{Ord, flip}

pub data OkxWebsocketStreamKind : Type 0 where
  public private business : OkxWebsocketStreamKind

pub data OkxWebsocketChannelClass : Type 0 where
  public_market_data public_candles private_trading private_algo_orders : OkxWebsocketChannelClass

pub record OkxWebsocketStreamIdentity : Type 0 where
  pub kind : OkxWebsocketStreamKind
  pub channel_class : OkxWebsocketChannelClass
  pub instrument_count : ℕ

pub data OkxWebsocketHealthEventKind : Type 0 where
  connect_attempt connected login_ack_succeeded login_failed : OkxWebsocketHealthEventKind
  subscription_ack_succeeded subscription_ack_failed : OkxWebsocketHealthEventKind
  reconnect_scheduled stream_disconnected_after_subscription : OkxWebsocketHealthEventKind
  stream_failed_before_subscription : OkxWebsocketHealthEventKind
  stream_failed_after_subscription stream_task_panicked : OkxWebsocketHealthEventKind
  stream_task_exited_unexpectedly : OkxWebsocketHealthEventKind

pub record OkxWebsocketHealthEvent : Type 0 where
  pub kind : OkxWebsocketHealthEventKind
  pub stream : OkxWebsocketStreamIdentity

-- The derived order: variants as they are declared, fields from the first.
abbrev kind_rank : OkxWebsocketStreamKind → ℕ
kind_rank public = 0
kind_rank private = 1
kind_rank business = 2

abbrev class_rank : OkxWebsocketChannelClass → ℕ
class_rank public_market_data = 0
class_rank public_candles = 1
class_rank private_trading = 2
class_rank private_algo_orders = 3

abbrev then_with : Ordering → Ordering → Ordering
then_with Ordering.lt next = Ordering.lt
then_with Ordering.eq next = next
then_with Ordering.gt next = Ordering.gt

abbrev pub cmp_stream : OkxWebsocketStreamIdentity → OkxWebsocketStreamIdentity → Ordering
cmp_stream a b = then_with (compare (kind_rank a.kind) (kind_rank b.kind)) (
    then_with (compare (class_rank a.channel_class) (class_rank b.channel_class))
      (compare a.instrument_count b.instrument_count))

eq_of_kind_rank : (a b : OkxWebsocketStreamKind) → kind_rank a ≡ kind_rank b → a ≡ b
eq_of_kind_rank a b h = ground arith

eq_of_class_rank : (a b : OkxWebsocketChannelClass) → class_rank a ≡ class_rank b → a ≡ b
eq_of_class_rank a b h = ground arith

pub cmp_stream_self : (a : OkxWebsocketStreamIdentity) → cmp_stream a a ≡ Ordering.eq
cmp_stream_self a = ground arith

pub cmp_stream-flip : (a b : OkxWebsocketStreamIdentity) → cmp_stream b a ≡ flip (cmp_stream a b)
cmp_stream-flip a b = ground arith

pub eq_of_cmp_stream : (a b : OkxWebsocketStreamIdentity) → cmp_stream a b ≡ Ordering.eq → a ≡ b
eq_of_cmp_stream a b h =
    ground (arith, eq_of_kind_rank a.kind b.kind, eq_of_class_rank a.channel_class b.channel_class)

pub cmp_stream_trans :
    (a b c : OkxWebsocketStreamIdentity)
    → cmp_stream a b ≡ Ordering.lt
    → cmp_stream b c ≡ Ordering.lt
    → cmp_stream a c ≡ Ordering.lt
cmp_stream_trans a b c h k = ground arith

instance abbrev pub stream_ord : Ord OkxWebsocketStreamIdentity
stream_ord = record {
  cmp = cmp_stream;
  cmp_self = cmp_stream_self;
  cmp_flip = cmp_stream-flip;
  eq_of_cmp = eq_of_cmp_stream;
  cmp_trans = cmp_stream_trans;
}
