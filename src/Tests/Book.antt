-- ===== src/Tests/Book.antt =====
-- `addLimitOrder` and `cancelOrder` of include/order_book.h on a book with one order.
use market_maker_ops.Prelude.{◌≡◌, refl, some, List, [], ◌∷◌, arith, ltb}
use market_maker_ops.Order.{buy, sell, Slot, Trade, Store, blank, update}
use market_maker_ops.PriceLevel.Queue.{total}
use market_maker_ops.OrderPool.FreeList.{count_flags}
use market_maker_ops.OrderBook.{OrderBook, add_limit_order, cancel_order}
use market_maker_ops.OrderBook.Match.Spec.{Queues, resting}
use market_maker_ops.OrderBook.WellFormed.{IsBook}
use market_maker_ops.OrderBook.Index.{Indexed, none_ne_some, Indexed-try_emplace}
use market_maker_ops.OrderBook.Add.{Added}
use market_maker_ops.OrderBook.Added.{add_limit_order_lem}
use market_maker_ops.OrderBook.Promises.{Conserved, entered_in, add_limit_order-Conserved}
use market_maker_ops.OrderBook.Cancelled.{Withdrawn, cancel_order_lem}

-- A seller of 3 in slot 0.
abbrev pub store : Store
store =
    update (update (λ _. blank) 1 (record blank { next = some 2 })) 0
      (record blank { order_id = 5; price = 100; quantity = 3; participant_id = 8; side = sell })

abbrev pub book : OrderBook
book = record {
  pool = record {
    capacity = 3;
    orders = store;
    free_list = some 1;
    free_count = 2;
    is_allocated = λ a. ltb a 1;
  };
  bids = [];
  asks = record { price = 100; total_quantity = 3; head = some 0; tail = some 0 } ∷ [];
  order_index = (5, 0) ∷ [];
  sequence = 1;
}

no_orders : Indexed (λ _. blank) [] []
no_orders id p = (λ e. absurd (none_ne_some p e), λ (i, k). absurd (ground arith))

book-Indexed : Indexed store (0 ∷ []) book.order_index
book-Indexed =
    Indexed-try_emplace (λ _. blank) store 0 (0 ∷ []) [] [] (λ a. ground arith, refl)
      (λ a i. absurd (ground arith)) no_orders refl

pub book-IsBook : IsBook buy book [] ((0, []) ∷ []) (1 ∷ 2 ∷ [])
unfolding total count_flags
book-IsBook = record {
  pool = record {
    head = refl;
    chain = (refl, (refl, tt));
    distinct = (refl, (refl, tt));
    within = (omega arith, (omega arith, tt));
    count = refl;
    flags = λ a h. ground arith;
    conserved = refl;
  };
  own_side = record { ladder = tt; sorted = tt; on_side = tt };
  opp_side = record {
    ladder = (
      record {
        head = refl;
        tail = refl;
        links = (refl, refl, tt);
        distinct = (refl, tt);
        sum = refl;
      },
      (refl, omega arith, omega arith, tt),
      tt,
    );
    sorted = tt;
    on_side = (refl, tt);
  };
  distinct = (refl, tt);
  apart = λ a i. ground arith;
  within = (omega arith, tt);
  index = book-Indexed;
  full = refl;
}

add_limit_order_lem_example :
    (ts : List Trade) × (b' : OrderBook) × (own' : Queues) × (opp' : Queues) × (free' : List Slot)
    × (add_limit_order buy 101 4 9 7 book ≡ some (ts, b'))
    × Added buy 9 7 101 4 book [] ((0, []) ∷ []) ts b' own' opp' free'
add_limit_order_lem_example =
    add_limit_order_lem buy 101 4 9 7 book [] ((0, []) ∷ []) 1 (2 ∷ []) book-IsBook (omega arith)
      refl (omega arith)

cancel_order_lem_example :
    (b' : OrderBook) × (own' : Queues) × (opp' : Queues) × (free' : List Slot) × (cancel_order 5
        book
      ≡ some b')
    × Withdrawn buy 5 book [] ((0, []) ∷ []) b' own' opp' free'
cancel_order_lem_example = cancel_order_lem buy 5 book [] ((0, []) ∷ []) (1 ∷ 2 ∷ []) book-IsBook

add_limit_order-Conserved_example :
    (ts : List Trade) × (b' : OrderBook) × (own' : Queues) × (opp' : Queues) × (free' : List Slot)
    × (add_limit_order buy 101 4 9 7 book ≡ some (ts, b'))
    × IsBook buy b' own' opp' free'
    × Conserved buy 101 4 [] (resting store (0 ∷ [])) (entered_in ts b' own' opp')
add_limit_order-Conserved_example =
    add_limit_order-Conserved buy 101 4 9 7 book [] ((0, []) ∷ []) 1 (2 ∷ []) book-IsBook
      (record { fits = omega arith; fresh = refl; room = omega arith; unused = omega arith })
