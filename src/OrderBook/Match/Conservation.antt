-- ===== src/OrderBook/Match/Conservation.antt =====
-- What the trades of `matchBuy` and `matchSell` of include/order_book.h add up to, and their prices.
use market_maker_ops.Prelude.{
  ℕ, ◌+◌, ◌-◌, ◌<◌, ◌≤◌, ◌≡◌, refl, ap, ◌∙◌, false, some, List, [], ◌∷◌, ◌||◌, arith, ltb, ltb→lt,
  ◌==◌, if_cases, subst, sym,
}
use market_maker_ops.Order.{Side, buy, sell, Trade, Slot}
use market_maker_ops.OrderBook.Match.{Matching, trade_of, match_loop}
use market_maker_ops.OrderBook.Match.Spec.{refuses, Resting, Crossed, cross, Queues, slots, resting}
use market_maker_ops.OrderBook.Match.Invariant.{IsMatching}
use market_maker_ops.OrderBook.Match.Loop.{match_loop_lem}

-- The quantity that trades move, and the quantity that rests.
abbrev pub traded : List Trade → ℕ
traded [] = 0
traded (t ∷ ts) = t.quantity + traded ts

abbrev pub supply : List Resting → ℕ
supply [] = 0
supply (r ∷ rs) = r.quantity + supply rs

-- A buyer pays at most its limit, and a seller is paid that at least.
abbrev pub Accepts : Side → ℕ → ℕ → Type 0
Accepts buy limit price = price ≤ limit
Accepts sell limit price = limit ≤ price

-- Every price is one that the incoming order accepts.
abbrev pub Accepted : Side → ℕ → List Trade → Type 0
Accepted side price [] = Unit {0}
Accepted side price (t ∷ ts) = Accepts side price t.price × Accepted side price ts

abbrev pub Sound : Side → ℕ → ℕ → List Resting → Crossed → Type 0
Sound side price q rs c =
    (traded c.trades + supply c.book ≡ supply rs)
    × (traded c.trades + c.left ≤ q)
    × Accepted side price c.trades

trade_of-price : (side : Side) (i r p q : ℕ) → (trade_of side i r p q).price ≡ p
trade_of-price buy i r p q = refl
trade_of-price sell i r p q = refl

Accepts-hit :
    (side : Side) (limit price : ℕ) → refuses side limit price ≡ false → Accepts side limit price
Accepts-hit buy limit price h = ground arith
Accepts-hit sell limit price h = ground arith

trade_of-quantity : (side : Side) (i r p q : ℕ) → (trade_of side i r p q).quantity ≡ q
trade_of-quantity buy i r p q = refl
trade_of-quantity sell i r p q = refl

pub cross-Sound :
    (side : Side) (id who price q : ℕ) (rs : List Resting)
    → Sound side price q rs (cross side id who price q rs)
cross-Sound side id who price q [] = (refl, omega arith, tt)
cross-Sound side id who price q (r ∷ rs) =
    let (kept, bound, good) = cross-Sound side id who price (q - r.quantity) rs in
    if_cases (Sound side price q (r ∷ rs)) ((q == 0) || refuses side price r.price)
      (λ e. (omega arith, omega arith, tt))
      (λ hit.
        if_cases (Sound side price q (r ∷ rs)) (r.participant_id == who)
          (λ e. (omega arith, omega arith, tt))
          (λ e.
            if_cases (Sound side price q (r ∷ rs)) (ltb q r.quantity)
              (λ lt. (
                omega
                    (arith, ltb→lt q r.quantity lt, trade_of-quantity side id r.order_id r.price q),
                omega (arith, trade_of-quantity side id r.order_id r.price q),
                (
                  subst (Accepts side price) (sym (trade_of-price side id r.order_id r.price q))
                      (Accepts-hit side price r.price (ground arith)),
                  tt,
                ),
              ))
              (λ ge. (
                omega (arith, kept, trade_of-quantity side id r.order_id r.price r.quantity),
                ground (arith, bound, trade_of-quantity side id r.order_id r.price r.quantity),
                (
                  subst (Accepts side price)
                      (sym (trade_of-price side id r.order_id r.price r.quantity))
                      (Accepts-hit side price r.price (ground arith)),
                  good,
                ),
              ))))

-- In a well-formed state, with more rounds than the incoming quantity, the loop ends without a failed
-- assertion in such a state, and the resting orders lose exactly the quantity that is traded, which with what is
-- left of the incoming order is at most the incoming quantity; every trade is at a price that the
-- incoming order accepts.
pub match_loop-conserves :
    (fuel : ℕ) (side : Side) (o : Slot) (id who price : ℕ) (s : Matching) (qs : Queues)
    (free : List Slot)
    → IsMatching o id who s qs free
    → (s.pool.orders o).quantity < fuel
    → (ts : List Trade) × (s' : Matching) × (qs' : Queues) × (free' : List Slot) × (match_loop fuel
          side o price s
        ≡ some (ts, s'))
      × IsMatching o id who s' qs' free'
      × (traded ts + supply (resting s'.pool.orders (slots qs'))
          ≡ supply (resting s.pool.orders (slots qs)))
      × (traded ts + (s'.pool.orders o).quantity ≤ (s.pool.orders o).quantity)
      × Accepted side price ts
match_loop-conserves fuel side o id who price s qs free is h =
    let q = (s.pool.orders o).quantity in
    let rs = resting s.pool.orders (slots qs) in
    let c = cross side id who price q rs in
    let (s', qs', free', e, is', left, book, progress) =
      match_loop_lem fuel side o id who price s qs free is h in
    let (kept, bound, good) = cross-Sound side id who price q rs in
    (
      c.trades,
      s',
      qs',
      free',
      e,
      is',
      ap (λ b. traded c.trades + supply b) book ∙ kept,
      omega (arith, left, bound),
      good,
    )
