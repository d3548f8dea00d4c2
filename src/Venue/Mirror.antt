-- ===== src/Venue/Mirror.antt =====
-- The table of live orders of venue/venue.cpp beside the book: what `onTrade` makes of it at the trades
-- of one incoming order.
use market_maker_ops.Prelude.{
  ℕ, ◌-◌, ◌<◌, ◌≡◌, refl, ap, ◌∙◌, false, some, List, [], ◌∷◌, ◌||◌, arith, ltb, ◌==◌, ==_comm,
  if_cases, lookup, nat_key,
}
use market_maker_ops.Order.{Side, Trade}
use market_maker_ops.OrderBook.Match.{trade_of}
use market_maker_ops.OrderBook.Match.Spec.{refuses, Resting, Crossed, cross, shrink}
use market_maker_ops.Venue.State.{LiveOrder, Venue}
use market_maker_ops.Venue.Fills.{on_trade, on_trades}
use market_maker_ops.Venue.Requests.{to_engine_side}
use market_maker_ops.Venue.Reductions.{remains, reduced, Fills, on_trade-Fills}

abbrev pub Table : Type 0
Table = List (ℕ × LiveOrder)

-- The table has a resting order of the book, with its owner, its side, its price and what remains.
abbrev pub Known : Table → Side → Resting → Type 0
Known t side r =
    (lo : LiveOrder) × (lookup r.order_id t ≡ some lo)
    × (lo.owner ≡ r.participant_id)
    × (to_engine_side lo.side ≡ side)
    × (lo.price_ticks ≡ r.price)
    × (lo.remaining ≡ r.quantity)

-- It has those of a list, where none is of quantity 0.
abbrev pub Mirrored : Table → Side → List Resting → Type 0
Mirrored t side [] = Unit {0}
Mirrored t side (r ∷ rs) = Known t side r × (0 < r.quantity) × Mirrored t side rs

-- No order of the list has the id.
abbrev pub Without : ℕ → List Resting → Type 0
Without id [] = Unit {0}
Without id (r ∷ rs) = ((r.order_id == id) ≡ false) × Without id rs

-- No two orders have one id.
abbrev pub DistinctIds : List Resting → Type 0
DistinctIds [] = Unit {0}
DistinctIds (r ∷ rs) = Without r.order_id rs × DistinctIds rs

-- No order of the participant is at a price that the incoming order accepts.
abbrev pub NotOwn : Side → (who price : ℕ) → List Resting → Type 0
NotOwn side who price [] = Unit {0}
NotOwn side who price (r ∷ rs) =
    (refuses side price r.price ≡ false → (r.participant_id == who) ≡ false)
    × NotOwn side who price rs

-- A change of two entries leaves the orders of other ids.
Mirrored-frame :
    (t t' : Table) (side : Side) (i k : ℕ) (rs : List Resting)
    → ((j : ℕ) → (i == j) ≡ false → (k == j) ≡ false → lookup j t' ≡ lookup j t)
    → Without i rs
    → Without k rs
    → Mirrored t side rs
    → Mirrored t' side rs
Mirrored-frame t t' side i k [] same w u m = tt
Mirrored-frame t t' side i k (r ∷ rs) same w u m =
    let (lo, e, owner, at_side, price, left) = m.0 in
    let kept = same r.order_id (==_comm i r.order_id ∙ w.0) (==_comm k r.order_id ∙ u.0) in
    (
      (lo, kept ∙ e, owner, at_side, price, left),
      m.1,
      Mirrored-frame t t' side i k rs same w.1 u.1 m.2,
    )

reduced-remains : (lo : LiveOrder) (q n : ℕ) → reduced q (remains lo n) ≡ remains lo (n - q)
reduced-remains lo q n =
    if_cases (λ x. reduced q x ≡ remains lo (n - q)) (n == 0) (λ e. ground (arith, e)) (λ e. refl)

-- What the trades of an incoming order make of the table, for the side that it meets.
pub record Traded (side : Side) (i : ℕ) (lo : LiveOrder) (rs : List Resting) (c : Crossed)
    (v v' : Venue) : Type 0 where
  pub incoming : lookup i v'.by_engine_id ≡ remains lo c.left
  pub mirrored : Mirrored v'.by_engine_id side c.book
  pub outside :
      (j : ℕ) → (i == j) ≡ false → Without j rs → lookup j v'.by_engine_id ≡ lookup j v.by_engine_id
  pub book : v'.book ≡ v.book
  pub next_id : v'.next_engine_id ≡ v.next_engine_id

-- The list is one that an incoming order can meet: the table has its orders, each has its own id,
-- and none that the incoming order would match is of the same participant.
pub record Meets (side other : Side) (i who price : ℕ) (t : Table) (rs : List Resting)
    : Type 0 where
  pub mirrored : Mirrored t other rs
  pub distinct : DistinctIds rs
  pub new_id : Without i rs
  pub not_own : NotOwn side who price rs

pub remains-some :
    (lo : LiveOrder) (n : ℕ) → 0 < n → remains lo n ≡ some (record lo { remaining = n })
remains-some lo n h = ground arith

module _ (side other : Side) (i who price : ℕ) (lo : LiveOrder) where
  -- One trade with the first order of the list.
  module _ (q t : ℕ) (r : Resting) (rs : List Resting) (v : Venue)
      (live : lookup i v.by_engine_id ≡ remains lo q)
      (meets : Meets side other i who price v.by_engine_id (r ∷ rs)) where
    abbrev v1 : Venue
    v1 = (on_trade (trade_of side i r.order_id r.price t) v).1

    filled_both : Fills i r.order_id t v v1
    filled_both =
        on_trade-Fills side i r.order_id r.price t v (==_comm i r.order_id ∙ meets.new_id.0)

    incoming_lem : lookup i v1.by_engine_id ≡ remains lo (q - t)
    incoming_lem = filled_both.one ∙ ap (reduced t) live ∙ reduced-remains lo t q

    rest-Mirrored : Mirrored v1.by_engine_id other rs
    rest-Mirrored =
        Mirrored-frame v.by_engine_id v1.by_engine_id other i r.order_id rs filled_both.outside
          meets.new_id.1 meets.distinct.0 meets.mirrored.2

    rest-Meets : Meets side other i who price v1.by_engine_id rs
    rest-Meets = record {
      mirrored = rest-Mirrored;
      distinct = meets.distinct.1;
      new_id = meets.new_id.1;
      not_own = meets.not_own.1;
    }

    shrink-Known : t < r.quantity → Known v1.by_engine_id other (shrink r t)
    shrink-Known lt =
        let (of_r, e, owner, at_side, at_price, left) = meets.mirrored.0 in
        (
          record of_r { remaining = of_r.remaining - t },
          filled_both.other
              ∙ ap (reduced t) e
              ∙ remains-some of_r (of_r.remaining - t) (omega (arith, left, lt)),
          owner,
          at_side,
          at_price,
          ap (λ n. n - t) left,
        )

    part-Traded :
        t < r.quantity
        → t ≡ q
        → (ts : List Trade)
        → Traded other i lo (r ∷ rs) (record { trades = ts; left = 0; book = shrink r t ∷ rs }) v v1
    part-Traded lt all ts = record {
      incoming = incoming_lem ∙ ap (remains lo) {y = 0} (omega (arith, all));
      mirrored = (shrink-Known lt, omega (arith, lt), rest-Mirrored);
      outside = λ j ne w. filled_both.outside j ne w.0;
      book = filled_both.book;
      next_id = filled_both.next_id;
    }

  -- Where the table of live orders has the incoming order and the resting orders of the side that it
  -- meets, each under its own id and none of the same participant at a price that would match,
  -- onTrade at each trade of the matching leaves a table that has the orders of that side as the book
  -- keeps them, and the incoming order with what is left of it, or not at all where nothing is left;
  -- every other order, the book and the next id stay as they are.
  pub cross-Traded :
      (q : ℕ) (rs : List Resting) (v : Venue)
      → lookup i v.by_engine_id ≡ remains lo q
      → Meets side other i who price v.by_engine_id rs
      → (let c = cross side i who price q rs in Traded other i lo rs c v (on_trades c.trades v).1)
  unfolding on_trades
  cross-Traded q [] v live meets = record {
    incoming = live;
    mirrored = tt;
    outside = λ j ne w. refl;
    book = refl;
    next_id = refl;
  }
  cross-Traded q (r ∷ rs) v live meets =
      let motive : Crossed → Type 0 =
        λ c. Traded other i lo (r ∷ rs) c v (on_trades c.trades v).1 in
      if_cases motive ((q == 0) || refuses side price r.price)
        (λ e. record {
          incoming = live;
          mirrored = meets.mirrored;
          outside = λ j ne w. refl;
          book = refl;
          next_id = refl;
        })
        (λ hit.
          if_cases motive (r.participant_id == who)
            (λ own. absurd (ground (arith, own, meets.not_own.0 (ground arith))))
            (λ e.
              if_cases motive (ltb q r.quantity)
                (λ lt.
                  part-Traded q q r rs v live meets (ground arith) refl
                    (trade_of side i r.order_id r.price q ∷ []))
                (λ ge.
                  let f = filled_both q r.quantity r rs v live meets in
                  let d =
                    cross-Traded (q - r.quantity) rs (v1 q r.quantity r rs v live meets)
                      (incoming_lem q r.quantity r rs v live meets)
                      (rest-Meets q r.quantity r rs v live meets) in
                  record {
                    incoming = d.incoming;
                    mirrored = d.mirrored;
                    outside = λ j ne w. d.outside j ne w.1 ∙ f.outside j ne w.0;
                    book = d.book ∙ f.book;
                    next_id = d.next_id ∙ f.next_id;
                  })))
