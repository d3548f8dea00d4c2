-- ===== src/OrderBook/Match.antt =====
-- The loop of `matchBuy` and `matchSell` of include/order_book.h.
pub mod Spec
pub mod Ladder
pub mod Parts
pub mod Fill
pub mod Retire
pub mod Invariant
pub mod Progress
pub mod Round
pub mod Cross
pub mod Outcome
pub mod Loop
pub mod Conservation
pub mod Uncrossed
use market_maker_ops.Prelude.{
  ℕ, zero, suc, min, Option, none, some, List, [], ◌∷◌, Bool, ltb, ◌==◌, if◌then◌else◌, ◌>>=◌,
  erase, nat_key,
}
use market_maker_ops.Order.{Side, buy, sell, Trade, Slot, Store, set_quantity}
use market_maker_ops.PriceLevel.{PriceLevel, front, sub32, remove}
use market_maker_ops.OrderPool.{OrderPool, deallocate}
use market_maker_ops.OrderBook.Levels.{drop_empty}

abbrev pub with_orders : Store → OrderPool → OrderPool
with_orders m pool = record pool { orders = m }

-- What the matching loop works on.
pub record Matching : Type 0 where
  pub pool : OrderPool
  pub levels : List PriceLevel
  pub order_index : List (ℕ × Slot)

-- `incomingPrice < pl->price` for a buyer, `incomingPrice > pl->price` for a seller.
abbrev pub misses : Side → ℕ → ℕ → Bool
misses buy price level = ltb price level
misses sell price level = ltb level price

abbrev pub trade_of : Side → (incoming resting price quantity : ℕ) → Trade
trade_of buy i r p q = record { buy_order_id = i; sell_order_id = r; price = p; quantity = q }
trade_of sell i r p q = record { buy_order_id = r; sell_order_id = i; price = p; quantity = q }

-- `if (resting->quantity == 0) { … }`, and the test of the level behind it.
unfoldable pub retire : Slot → PriceLevel → List PriceLevel → Matching → Option Matching
retire r pl rest s =
    if (s.pool.orders r).quantity == 0
    then (let (pl', m) = remove r pl s.pool.orders in
        do
          pool ← deallocate r (with_orders m s.pool)
          some (record {
            pool = pool;
            levels = drop_empty pl' rest;
            order_index = erase (m r).order_id s.order_index;
          }))
    else some (record s { levels = drop_empty pl rest })

-- The rest of a round: the fill, the trade, and what becomes of the resting order.
unfoldable pub fill :
    Side → Slot → Slot → PriceLevel → List PriceLevel → Matching → Option (Trade × Matching)
unfolding retire
fill side o r pl rest s =
    let m = s.pool.orders in
    let quantity = min (m o).quantity (m r).quantity in
    let m1 = set_quantity m o (sub32 (m o).quantity quantity) in
    let m2 = set_quantity m1 r (sub32 (m1 r).quantity quantity) in
    let pl' : PriceLevel = record pl { total_quantity = sub32 pl.total_quantity quantity } in
    do
      s' ← retire r pl' rest (record s { pool = with_orders m2 s.pool })
      some (trade_of side (m2 o).order_id (m2 r).order_id pl.price quantity, s')

-- The outcome of a loop: the trades, and the state.
abbrev pub Matched : Type 0
Matched = Option (List Trade × Matching)

-- A round at the head of the best level; `next` runs the rounds that follow. An order of the same
-- participant ends the loop and cancels what is left of the incoming order.
unfoldable pub meet :
    (Matching → Matched)
    → Side
    → Slot
    → PriceLevel
    → List PriceLevel
    → Option Slot
    → Matching
    → Matched
unfolding fill
meet next side o pl rest none s = none
meet next side o pl rest (some r) s =
    if (s.pool.orders r).participant_id == (s.pool.orders o).participant_id
    then some ([], record s { pool = with_orders (set_quantity s.pool.orders o 0) s.pool })
    else (do (t, s') ← fill side o r pl rest s; (ts, s'') ← next s'; some (t ∷ ts, s''))

unfoldable pub match_round :
    (Matching → Matched) → Side → Slot → ℕ → List PriceLevel → Matching → Matched
unfolding meet
match_round next side o price [] s = some ([], s)
match_round next side o price (pl ∷ rest) s =
    if misses side price pl.price then some ([], s) else meet next side o pl rest (front pl) s

unfoldable pub match_loop : ℕ → Side → Slot → ℕ → Matching → Matched
unfolding match_round
match_loop zero side o price s = none
match_loop (suc f) side o price s =
    if ltb 0 (s.pool.orders o).quantity
    then match_round (match_loop f side o price) side o price s.levels s
    else some ([], s)
