-- ===== src/Tests/Exchange.antt =====
-- The theorems on the venue, at a venue with one resting order.
use market_maker_ops.Prelude.{
  ◌≡◌, refl, none, some, Option, true, false, [], ◌∷◌, arith, codes, nat_key,
}
use market_maker_ops.Order.{blank, buy, sell, update}
use market_maker_ops.PriceLevel.{remove}
use market_maker_ops.OrderPool.{deallocate, set_flag}
use market_maker_ops.OrderBook.{OrderBook, cancel_order}
use market_maker_ops.OrderBook.Levels.{lower_bound, rejoin}
use market_maker_ops.Protocol.Inbound
use market_maker_ops.Protocol.Inbound.{InboundMessage, no_message, new_order, cancel}
use market_maker_ops.Venue.State.{
  symbol, LiveOrder, ClientRecord, Venue, resting, cancel_ack, cancel_reject,
}
use market_maker_ops.Venue.Fills.{route_fill, on_trades}
use market_maker_ops.Venue.Mirror.{Traded, cross-Traded}
use market_maker_ops.OrderBook.Match.Spec.{Resting, cross}
use market_maker_ops.Venue.Requests.{handle_new_order, handle_cancel}
use market_maker_ops.Venue.Admission.{Admissible, Refused, handle_new_order-Refused}
use market_maker_ops.Venue.Routing.{Routed, route_fill-Routed}
use market_maker_ops.Venue.Cancelling.{handle_cancel_twice}

-- Connection 7 sells 5 at 100.00 by its order `a`, which is engine order 1.
abbrev book : OrderBook
book = record {
  pool = record {
    capacity = 2;
    orders = λ p.
        update (λ _. blank) 0
          (record blank {
            order_id = 1;
            price = 10000;
            quantity = 5;
            participant_id = 7;
            side = sell;
          })
          p;
    free_list = some 1;
    free_count = 1;
    is_allocated = λ p. set_flag (λ _. false) 0 true p;
  };
  bids = [];
  asks = record { price = 10000; total_quantity = 5; head = some 0; tail = some 0 } ∷ [];
  order_index = (1, 0) ∷ [];
  sequence = 1;
}

abbrev order_a : LiveOrder
order_a = record {
  owner = 7;
  client_order_id = codes "a";
  exchange_id = codes "e-1";
  side = Inbound.sell;
  price_ticks = 10000;
  remaining = 5;
}

abbrev record_a : ClientRecord
record_a = record { state = resting; exchange_id = codes "e-1"; engine_id = 1 }

abbrev venue : Venue
venue = record {
  soft_cap = 10;
  next_engine_id = 2;
  has_last_trade = false;
  last_trade_ticks = 0;
  by_engine_id = (1, order_a) ∷ [];
  by_conn = (7, (codes "a", record_a) ∷ []) ∷ [];
  book = book;
}

abbrev bid : InboundMessage
bid = record no_message {
  type = new_order;
  client_order_id = codes "b";
  has_client_order_id = true;
  symbol = symbol;
  has_symbol = true;
  has_side = true;
  price_ticks = 10000;
  has_price = true;
  qty = 3;
  has_qty = true;
}

abbrev cancel_a : InboundMessage
cancel_a = record no_message {
  type = cancel;
  client_order_id = codes "a";
  has_client_order_id = true;
}

own_cross : ¬ Admissible 7 bid venue
own_cross ok = cc (ok.no_cross.0 refl)

handle_new_order-Refused_example : Refused 7 venue (handle_new_order 7 bid venue)
handle_new_order-Refused_example = handle_new_order-Refused 7 bid venue own_cross

route_fill-Routed_example : Routed 1 order_a 10000 2 venue (route_fill 1 10000 2 venue)
route_fill-Routed_example = route_fill-Routed 1 10000 2 order_a venue refl

or_else : Option OrderBook → OrderBook
or_else none = book
or_else (some b) = b

left_book : OrderBook
unfolding or_else
left_book = or_else (cancel_order 1 book)

cancelled_book : cancel_order 1 book ≡ some left_book
unfolding left_book cancel_order lower_bound rejoin remove deallocate
cancelled_book = refl

handle_cancel_twice_example :
    (v : Venue) × (handle_cancel 7 cancel_a venue
      ≡ some ((7, cancel_ack (codes "a") (codes "e-1")) ∷ [], v))
    × (handle_cancel 7 cancel_a v
        ≡ some ((7, cancel_reject (codes "a") (codes "already_cancelled")) ∷ [], v))
handle_cancel_twice_example =
    handle_cancel_twice 7 cancel_a record_a left_book venue refl refl refl cancelled_book

-- Connection 9 buys 8 by its order `b`, which is engine order 2.
abbrev order_b : LiveOrder
order_b = record {
  owner = 9;
  client_order_id = codes "b";
  exchange_id = codes "e-2";
  side = Inbound.buy;
  price_ticks = 10000;
  remaining = 8;
}

abbrev venue_b : Venue
venue_b = record venue { by_engine_id = (1, order_a) ∷ (2, order_b) ∷ [] }

abbrev seller_a : Resting
seller_a = record { order_id = 1; participant_id = 7; price = 10000; quantity = 5 }

cross-Traded_example :
    Traded sell 2 order_b
      (seller_a ∷ [])
      (cross buy 2 9 10000 8 (seller_a ∷ []))
      venue_b
      (on_trades (cross buy 2 9 10000 8 (seller_a ∷ [])).trades venue_b).1
cross-Traded_example =
    cross-Traded buy sell 2 9 10000 order_b 8 (seller_a ∷ []) venue_b refl (record {
      mirrored = ((order_a, refl, refl, refl, refl, refl), omega arith, tt);
      distinct = (tt, tt);
      new_id = (refl, tt);
      not_own = (λ e. refl, tt);
    })
