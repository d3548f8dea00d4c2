-- ===== src/OrderBook/Match/Spec.antt =====
-- What the matching of include/order_book.h is to do, on a side as one list of resting orders in
-- price-time priority: no levels, links, slots or fuel.
use market_maker_ops.Prelude.{
  ℕ, ◌-◌, Bool, List, [], ◌∷◌, ◌||◌, ltb, ◌==◌, if◌then◌else◌, map, ◌++◌,
}
use market_maker_ops.Order.{Side, buy, sell, Trade, Slot, Store}
use market_maker_ops.OrderBook.Match.{trade_of}

pub record Resting : Type 0 where
  pub order_id : ℕ
  pub participant_id : ℕ
  pub price : ℕ
  pub quantity : ℕ

-- Is a price beyond what a buyer pays, or below what a seller takes?
abbrev pub refuses : Side → (limit price : ℕ) → Bool
refuses buy limit price = ltb limit price
refuses sell limit price = ltb price limit

-- What an incoming order does: the trades, what is left of it, and the side that is left.
pub record Crossed : Type 0 where
  pub trades : List Trade
  pub left : ℕ
  pub book : List Resting

abbrev pub shrink : Resting → ℕ → Resting
shrink r q = record r { quantity = r.quantity - q }

-- The first order of the list is filled as long as its price is good. An order of the same
-- participant ends the matching, and what is left of the incoming order is cancelled.
abbrev pub cross : Side → (id who price quantity : ℕ) → List Resting → Crossed
cross side id who price q [] = record { trades = []; left = q; book = [] }
cross side id who price q (r ∷ rs) =
    let rest = cross side id who price (q - r.quantity) rs in
    if (q == 0) || refuses side price r.price
    then record { trades = []; left = q; book = r ∷ rs }
    else if r.participant_id == who
    then record { trades = []; left = 0; book = r ∷ rs }
    else if ltb q r.quantity
    then record {
      trades = trade_of side id r.order_id r.price q ∷ [];
      left = 0;
      book = shrink r q ∷ rs;
    }
    else record {
      trades = trade_of side id r.order_id r.price r.quantity ∷ rest.trades;
      left = rest.left;
      book = rest.book;
    }

-- The resting order in a slot, and those of the queues of a side.
abbrev pub resting_at : Store → Slot → Resting
resting_at m p = record {
  order_id = (m p).order_id;
  participant_id = (m p).participant_id;
  price = (m p).price;
  quantity = (m p).quantity;
}

-- The slots of a level, which has one at least, and of all levels.
abbrev pub Queues : Type 0
Queues = List (Slot × List Slot)

abbrev pub slots : Queues → List Slot
slots [] = []
slots ((p, ps) ∷ qs) = (p ∷ ps) ++ slots qs

abbrev pub resting : Store → List Slot → List Resting
resting m ps = map (resting_at m) ps
