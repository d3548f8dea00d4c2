-- ===== src/OrderBook/Promises.antt =====
-- What the users of include/order_book.h rely on, whatever was entered and cancelled before.
use market_maker_ops.Prelude.{
  ℕ, ◌+◌, ◌<◌, ◌≤◌, ◌≡◌, refl, sym, subst, some, List, [], ◌∷◌, arith, ◌==◌, if_cases,
}
use market_maker_ops.Order.{Side, buy, Trade, Slot, Store}
use market_maker_ops.PriceLevel.{PriceLevel}
use market_maker_ops.OrderBook.{OrderBook, back, best_bid, best_ask, add_limit_order}
use market_maker_ops.OrderBook.Match.Spec.{Resting, cross, Queues, slots, resting}
use market_maker_ops.OrderBook.Match.Ladder.{Ladder}
use market_maker_ops.OrderBook.Match.Conservation.{traded, supply, Accepted, cross-Sound}
use market_maker_ops.OrderBook.Abstract.{beats, place, Entered, enter}
use market_maker_ops.OrderBook.WellFormed.{IsBook}
use market_maker_ops.OrderBook.Added.{add_limit_order_lem}
use market_maker_ops.OrderBook.Apart.{Apart}
use market_maker_ops.OrderBook.Runs.{Enters, adds, Reach, next, enters_lem, Reach-IsFair}

best_bid_below :
    (m : Store) (ls ks : List PriceLevel) (own opp : Queues) (k l : PriceLevel)
    → Ladder m ls own
    → Ladder m ks opp
    → Apart buy (resting m (slots own)) (resting m (slots opp))
    → back ls ≡ some k
    → back ks ≡ some l
    → k.price < l.price
best_bid_below m [] ks own opp k l d c a e f = absurd (ground arith)
best_bid_below m (x ∷ ls) [] own opp k l d c a e f = absurd (ground arith)
best_bid_below m (x ∷ ls) (y ∷ ks) [] opp k l d c a e f = absurd d
best_bid_below m (x ∷ ls) (y ∷ ks) (q ∷ own) [] k l d c a e f = absurd c
best_bid_below m (x ∷ ls) (y ∷ ks) ((p, ps) ∷ own) ((r, rs) ∷ opp) k l d c a e f =
    let at_k : x ≡ k = cc e in
    let at_l : y ≡ l = cc f in
    subst (λ z. z.price < l.price) at_k
      (subst (λ z. x.price < z.price) at_l (omega (arith, d.1.0, c.1.0, a.0.0)))

-- In a book that addLimitOrder (of a 32-bit quantity under an id that is not in the book, with an unused
-- slot and fewer than 4096 levels on its side) and cancelOrder lead to from a new book, the best bid
-- is below the best ask.
pub Reach-uncrossed :
    (n : ℕ) (b : OrderBook) (k l : PriceLevel)
    → Reach n b
    → best_bid b ≡ some k
    → best_ask b ≡ some l
    → k.price < l.price
Reach-uncrossed n b k l r e f =
    let fair = Reach-IsFair r in
    best_bid_below b.pool.orders b.bids b.asks fair.own fair.opp k l fair.book.own_side.ladder
      fair.book.opp_side.ladder fair.apart e f

-- From a book that such addLimitOrder calls and cancelOrder lead to from a new book, addLimitOrder of a
-- 32-bit quantity under an id that is not in the book, with an unused slot and fewer than 4096 levels
-- on its side, ends without a failed assertion, and the book that is left is one that they lead to.
pub Reach-adds :
    (n : ℕ) (side : Side) (price quantity id who : ℕ) (b : OrderBook)
    → Reach n b
    → Enters side quantity id b
    → (ts : List Trade) × (b' : OrderBook) × (add_limit_order side price quantity id who b
        ≡ some (ts, b'))
      × Reach n b'
Reach-adds n side price quantity id who b r c =
    let (ts, b', e, f) = enters_lem side price quantity id who b (Reach-IsFair r) c in
    (ts, b', e, next r (adds side price quantity id who ts b' c e))

supply-place :
    (side : Side) (r : Resting) (rs : List Resting)
    → supply (place side r rs) ≡ r.quantity + supply rs
supply-place side r [] = refl
supply-place side r (x ∷ xs) =
    if_cases (λ l. supply l ≡ r.quantity + supply (x ∷ xs)) (beats side r.price x.price) (λ e. refl)
      (λ e. omega (arith, supply-place side r xs))

-- What the quantities of an incoming order and of the two sides come to.
abbrev pub Conserved : Side → (price quantity : ℕ) → (own opp : List Resting) → Entered → Type 0
Conserved side price quantity own opp e =
    (traded e.trades + supply e.opposite ≡ supply opp)
    × (traded e.trades + supply e.own ≤ quantity + supply own)
    × Accepted side price e.trades

enter-Conserved :
    (side : Side) (id who price quantity : ℕ) (own opp : List Resting)
    → Conserved side price quantity own opp (enter side id who price quantity own opp)
enter-Conserved side id who price quantity own opp =
    let c = cross side id who price quantity opp in
    let (kept, bound, good) = cross-Sound side id who price quantity opp in
    let r : Resting = record {
      order_id = id;
      participant_id = who;
      price = price;
      quantity = c.left;
    } in
    (
      kept,
      if_cases (λ l. traded c.trades + supply l ≤ quantity + supply own) (c.left == 0)
          (λ e. omega (arith, bound)) (λ e. omega (arith, bound, supply-place side r own)),
      good,
    )

-- The two sides of a book, with trades.
abbrev pub entered_in : List Trade → OrderBook → (own opp : Queues) → Entered
entered_in ts b own opp = record {
  trades = ts;
  own = resting b.pool.orders (slots own);
  opposite = resting b.pool.orders (slots opp);
}

-- addLimitOrder on a well-formed book with an unused slot, of a 32-bit quantity, under an id that is
-- not in the book and at a side with fewer than 4096 levels, leaves a well-formed book in which the
-- other side has lost exactly the quantity that is traded; this quantity with what the order's own
-- side has gained is at most the incoming quantity, and every trade is at a price that the incoming
-- order accepts.
pub add_limit_order-Conserved :
    (side : Side) (price quantity id who : ℕ) (b : OrderBook) (own opp : Queues) (o : Slot)
    (free : List Slot)
    → IsBook side b own opp (o ∷ free)
    → Enters side quantity id b
    → (ts : List Trade) × (b' : OrderBook) × (own' : Queues) × (opp' : Queues) × (free' : List Slot)
      × (add_limit_order side price quantity id who b ≡ some (ts, b'))
      × IsBook side b' own' opp' free'
      × Conserved side price quantity
          (resting b.pool.orders (slots own))
          (resting b.pool.orders (slots opp))
          (entered_in ts b' own' opp')
add_limit_order-Conserved side price quantity id who b own opp o free is c =
    let (ts, b', own', opp', free', e, a) =
      add_limit_order_lem side price quantity id who b own opp o free is c.fits c.fresh c.room in
    let rs = resting b.pool.orders (slots own) in
    let ss = resting b.pool.orders (slots opp) in
    (
      ts,
      b',
      own',
      opp',
      free',
      e,
      a.book,
      subst (Conserved side price quantity rs ss) (sym a.entered)
          (enter-Conserved side id who price quantity rs ss),
    )
