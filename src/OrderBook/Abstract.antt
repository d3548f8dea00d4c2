-- ===== src/OrderBook/Abstract.antt =====
-- What `addLimitOrder` and `cancelOrder` of include/order_book.h are to do to a book of two lists of
-- resting orders, each in price-time priority.
use market_maker_ops.Prelude.{ℕ, Bool, List, [], ◌∷◌, ltb, ◌==◌, if◌then◌else◌}
use market_maker_ops.Order.{Side, buy, sell, Trade}
use market_maker_ops.OrderBook.Match.Spec.{Resting, cross}

-- Is the first price the better one for an order of the side?
abbrev pub beats : Side → ℕ → ℕ → Bool
beats buy p q = ltb q p
beats sell p q = ltb p q

-- An order joins its side behind every order whose price is as good.
abbrev pub place : Side → Resting → List Resting → List Resting
place side r [] = r ∷ []
place side r (x ∷ xs) = if beats side r.price x.price then r ∷ x ∷ xs else x ∷ place side r xs

-- The trades of an incoming order, and the two sides behind it.
pub record Entered : Type 0 where
  pub trades : List Trade
  pub own : List Resting
  pub opposite : List Resting

abbrev pub enter : Side → (id who price quantity : ℕ) → (own opposite : List Resting) → Entered
enter side id who price q own opposite =
    let c = cross side id who price q opposite in
    let rest : Resting = record {
      order_id = id;
      participant_id = who;
      price = price;
      quantity = c.left;
    } in
    record {
      trades = c.trades;
      own = if c.left == 0 then own else place side rest own;
      opposite = c.book;
    }

-- A side without the order of an id.
abbrev pub withdraw : ℕ → List Resting → List Resting
withdraw id [] = []
withdraw id (r ∷ rs) = if r.order_id == id then withdraw id rs else r ∷ withdraw id rs
