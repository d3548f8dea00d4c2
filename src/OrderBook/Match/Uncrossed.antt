-- ===== src/OrderBook/Match/Uncrossed.antt =====
-- When `matchBuy` and `matchSell` of include/order_book.h leave something of the incoming order.
use market_maker_ops.Prelude.{
  ℕ, ◌-◌, ◌<◌, ◌≡◌, refl, sym, subst, ◌∙◌, Bool-cases, ◌⊎◌, inl, inr, true, some, List, [], ◌∷◌,
  ◌||◌, arith, ltb, ◌==◌, if_cases,
}
use market_maker_ops.Order.{Side, buy, sell, Trade, Slot}
use market_maker_ops.OrderBook.Match.{Matching, match_loop}
use market_maker_ops.OrderBook.Match.Spec.{refuses, Resting, Crossed, cross, Queues, slots, resting}
use market_maker_ops.OrderBook.Match.Invariant.{IsMatching}
use market_maker_ops.OrderBook.Match.Loop.{match_loop_lem}

-- Beyond what a buyer pays, or below what a seller takes.
abbrev pub Refuses : Side → ℕ → ℕ → Type 0
Refuses buy limit price = limit < price
Refuses sell limit price = price < limit

-- The first resting order, if there is one, is at a price that the incoming order does not accept.
abbrev pub Clear : Side → ℕ → List Resting → Type 0
Clear side price [] = Unit {0}
Clear side price (r ∷ rs) = Refuses side price r.price

abbrev pub Settled : Side → ℕ → Crossed → Type 0
Settled side price c = (c.left ≡ 0) ⊎ Clear side price c.book

Refuses-test :
    (side : Side) (limit price : ℕ) → refuses side limit price ≡ true → Refuses side limit price
Refuses-test buy limit price h = ground arith
Refuses-test sell limit price h = ground arith

stop-Settled :
    (side : Side) (price q : ℕ) (r : Resting) (rs : List Resting)
    → ((q == 0) || refuses side price r.price) ≡ true
    → Settled side price (record { trades = []; left = q; book = r ∷ rs })
stop-Settled side price q r rs e = elim (Bool-cases (refuses side price r.price)) [
  | inl h ↦ inr (Refuses-test side price r.price h)
  | inr h ↦ inl (ground arith)
]

pub cross-Settled :
    (side : Side) (id who price q : ℕ) (rs : List Resting)
    → Settled side price (cross side id who price q rs)
cross-Settled side id who price q [] = inr tt
cross-Settled side id who price q (r ∷ rs) =
    if_cases (Settled side price) ((q == 0) || refuses side price r.price)
      (λ e. stop-Settled side price q r rs e)
      (λ hit.
        if_cases (Settled side price) (r.participant_id == who) (λ e. inl refl)
          (λ e.
            if_cases (Settled side price) (ltb q r.quantity) (λ lt. inl refl)
              (λ ge. cross-Settled side id who price (q - r.quantity) rs)))

-- In a well-formed state, with more rounds than the incoming quantity, the loop ends without a failed
-- assertion in such a state, and either nothing is left of the incoming order or the first resting
-- order, if there is one, is at a price that the incoming order does not accept.
pub match_loop-Clear :
    (fuel : ℕ) (side : Side) (o : Slot) (id who price : ℕ) (s : Matching) (qs : Queues)
    (free : List Slot)
    → IsMatching o id who s qs free
    → (s.pool.orders o).quantity < fuel
    → (ts : List Trade) × (s' : Matching) × (qs' : Queues) × (free' : List Slot) × (match_loop fuel
          side o price s
        ≡ some (ts, s'))
      × IsMatching o id who s' qs' free'
      × (((s'.pool.orders o).quantity ≡ 0) ⊎ Clear side price (resting s'.pool.orders (slots qs')))
match_loop-Clear fuel side o id who price s qs free is h =
    let q = (s.pool.orders o).quantity in
    let rs = resting s.pool.orders (slots qs) in
    let c = cross side id who price q rs in
    let (s', qs', free', e, is', left, book, progress) =
      match_loop_lem fuel side o id who price s qs free is h in
    (
      c.trades,
      s',
      qs',
      free',
      e,
      is',
      elim (cross-Settled side id who price q rs) [
        | inl z ↦ inl (left ∙ z)
        | inr h ↦ inr (subst (Clear side price) (sym book) h)
      ],
    )
