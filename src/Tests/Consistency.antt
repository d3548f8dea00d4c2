-- ===== src/Tests/Consistency.antt =====
-- Accepting an order and dropping a connection in venue/venue.cpp, at a venue with one resting order.
use market_maker_ops.Prelude.{
  ◌≡◌, ◌++◌, refl, none, some, true, false, ◌⊎◌, [], ◌∷◌, arith, lookup, nat_key, codes,
}
use market_maker_ops.Order.{buy}
use market_maker_ops.Protocol.Inbound
use market_maker_ops.Protocol.Inbound.{InboundMessage, no_message}
use market_maker_ops.Protocol.Number.{to_decimal}
use market_maker_ops.Venue.{drop_connection}
use market_maker_ops.Venue.State
use market_maker_ops.Venue.State.{symbol, ClientRecord, LiveOrder, Sent, Venue, ack}
use market_maker_ops.Venue.Requests.{accept_order, handle_new_order, handle_cancel}
use market_maker_ops.Venue.Handling.{NewOrdered, handle_new_order_lem}
use market_maker_ops.Venue.Withdrawing.{Cancellable, Gone, Denied, handle_cancel_lem}
use market_maker_ops.Venue.Joining.{IsConsistent}
use market_maker_ops.Venue.Accepting.{accept_order-IsConsistent}
use market_maker_ops.Venue.Dropping.{NoneOwned, drop_connection-IsConsistent}
use market_maker_ops.Tests.Book.{book, book-IsBook}

-- A venue with this book, and connection 7 that buys 4 at 101.
abbrev sold : LiveOrder
sold = record {
  owner = 8;
  client_order_id = codes "a";
  exchange_id = codes "e-5";
  side = Inbound.sell;
  price_ticks = 100;
  remaining = 3;
}

abbrev sold_record : ClientRecord
sold_record = record { state = State.resting; exchange_id = codes "e-5"; engine_id = 5 }

abbrev venue : Venue
venue = record {
  soft_cap = 2;
  next_engine_id = 9;
  has_last_trade = false;
  last_trade_ticks = 0;
  by_engine_id = (5, sold) ∷ [];
  by_conn = (8, (codes "a", sold_record) ∷ []) ∷ [];
  book = book;
}

abbrev buys : InboundMessage
buys = record no_message {
  client_order_id = codes "b";
  has_client_order_id = true;
  symbol = symbol;
  has_symbol = true;
  side = Inbound.buy;
  has_side = true;
  price_ticks = 101;
  has_price = true;
  qty = 4;
  has_qty = true;
}

book-IsConsistent : IsConsistent buy book ((5, sold) ∷ [])
book-IsConsistent = record {
  own = [];
  opp = (0, []) ∷ [];
  free = 1 ∷ 2 ∷ [];
  book = book-IsBook;
  own_known = tt;
  opp_known = ((sold, refl, refl, refl, refl, refl), omega arith, tt);
}

accept_order-IsConsistent_example :
    (sent : Sent) × (v' : Venue) × (accept_order 7 [] buys venue
      ≡ some ((7, ack (codes "b") (codes "e-" ++ to_decimal 9)) ∷ sent, v'))
    × IsConsistent buy v'.book v'.by_engine_id
    × (v'.next_engine_id ≡ 10)
accept_order-IsConsistent_example =
    accept_order-IsConsistent 7 [] buys venue book-IsConsistent
      (record { fits = omega arith; fresh = refl; room = omega arith; unused = omega arith })
      (omega arith) (λ e. absurd (ground arith), tt)

drop_connection-IsConsistent_example :
    (v' : Venue) × (drop_connection 8 venue ≡ some v')
    × IsConsistent buy v'.book v'.by_engine_id
    × NoneOwned 8 v'.by_engine_id
    × (lookup 8 v'.by_conn ≡ none)
drop_connection-IsConsistent_example = drop_connection-IsConsistent buy 8 venue book-IsConsistent

handle_new_order_lem_example :
    (sent : Sent) × (v' : Venue) × (handle_new_order 7 buys venue ≡ some (sent, v'))
    × NewOrdered 7 buys venue sent v'
handle_new_order_lem_example =
    handle_new_order_lem 7 buys venue book-IsConsistent
      (record { fits = omega arith; fresh = refl; room = omega arith; unused = omega arith })

abbrev cancels : InboundMessage
cancels = record no_message { client_order_id = codes "a"; has_client_order_id = true }

handle_cancel_lem_example :
    (sent : Sent) × (v' : Venue) × (handle_cancel 8 cancels venue ≡ some (sent, v'))
    × IsConsistent buy v'.book v'.by_engine_id
    × (((r : ClientRecord) × Cancellable 8 cancels venue r × Gone 8 cancels r sent v')
        ⊎ Denied 8 cancels venue sent v')
handle_cancel_lem_example = handle_cancel_lem buy 8 cancels venue book-IsConsistent
