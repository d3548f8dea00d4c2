-- ===== src/Venue/Reductions.antt =====
-- What a fill and a trade do to the table of live orders of venue/venue.cpp.
use market_maker_ops.Prelude.{
  ℕ, ◌-◌, ◌≡◌, refl, sym, ap, ◌∙◌, true, false, Option, Option-cases, none, some, inl, inr, ◌==◌,
  ==_comm, if◌then◌else◌, lookup, nat_key,
}
use market_maker_ops.Order.{Side, buy, sell}
use market_maker_ops.OrderBook.Match.{trade_of}
use market_maker_ops.Venue.State.{LiveOrder, Venue}
use market_maker_ops.Venue.Fills.{route_at, route_fill, on_trade}
use market_maker_ops.Venue.Routing.{route_fill-Routed}

-- A live order with a quantity that remains, if one does.
abbrev pub remains : LiveOrder → ℕ → Option LiveOrder
remains lo n = if n == 0 then none else some (record lo { remaining = n })

abbrev pub reduced : ℕ → Option LiveOrder → Option LiveOrder
reduced q none = none
reduced q (some lo) = remains lo (lo.remaining - q)

-- A step of the venue that fills an order and leaves the others, the book and the next id.
record Reduces (id q : ℕ) (v v' : Venue) : Type 0 where
  order : lookup id v'.by_engine_id ≡ reduced q (lookup id v.by_engine_id)
  others : (j : ℕ) → (id == j) ≡ false → lookup j v'.by_engine_id ≡ lookup j v.by_engine_id
  book : v'.book ≡ v.book
  next_id : v'.next_engine_id ≡ v.next_engine_id

route_fill-Reduces : (id price q : ℕ) (v : Venue) → Reduces id q v (route_fill id price q v).1
unfolding route_fill route_at
route_fill-Reduces id price q v = elim (Option-cases (lookup id v.by_engine_id)) [
  | inl e ↦ rw e (record {
    order = e ∙ sym (ap (reduced q) e);
    others = λ j ne. refl;
    book = refl;
    next_id = refl;
  })
  | inr (lo, e) ↦
      let r = route_fill-Routed id price q lo v e in
      record {
        order = r.order ∙ sym (ap (reduced q) e);
        others = r.other_orders;
        book = r.book;
        next_id = r.next_id;
      }
]

-- A trade fills two orders.
pub record Fills (i r q : ℕ) (v v' : Venue) : Type 0 where
  pub one : lookup i v'.by_engine_id ≡ reduced q (lookup i v.by_engine_id)
  pub other : lookup r v'.by_engine_id ≡ reduced q (lookup r v.by_engine_id)
  pub outside :
      (j : ℕ)
      → (i == j) ≡ false
      → (r == j) ≡ false
      → lookup j v'.by_engine_id ≡ lookup j v.by_engine_id
  pub book : v'.book ≡ v.book
  pub next_id : v'.next_engine_id ≡ v.next_engine_id

Reduces-Fills :
    (i r q : ℕ) (u v w : Venue)
    → (i == r) ≡ false
    → Reduces i q u v
    → Reduces r q v w
    → Fills i r q u w
Reduces-Fills i r q u v w ne a b = record {
  one = b.others i (==_comm r i ∙ ne) ∙ a.order;
  other = b.order ∙ ap (reduced q) (a.others r ne);
  outside = λ j d e. b.others j e ∙ a.others j d;
  book = b.book ∙ a.book;
  next_id = b.next_id ∙ a.next_id;
}

Fills-swap : (i r q : ℕ) (v w : Venue) → Fills i r q v w → Fills r i q v w
Fills-swap i r q v w f = record {
  one = f.other;
  other = f.one;
  outside = λ j d e. f.outside j e d;
  book = f.book;
  next_id = f.next_id;
}

pub on_trade-Fills :
    (side : Side) (i r price q : ℕ) (v : Venue)
    → (i == r) ≡ false
    → Fills i r q v (on_trade (trade_of side i r price q) v).1
unfolding on_trade
on_trade-Fills buy i r price q v ne =
    let v0 : Venue = record v { last_trade_ticks = price; has_last_trade = true } in
    let a = route_fill-Reduces i price q v0 in
    let b = route_fill-Reduces r price q (route_fill i price q v0).1 in
    let f = Reduces-Fills i r q v0 _ _ ne a b in
    record { one = f.one; other = f.other; outside = f.outside; book = f.book; next_id = f.next_id }
on_trade-Fills sell i r price q v ne =
    let v0 : Venue = record v { last_trade_ticks = price; has_last_trade = true } in
    let a = route_fill-Reduces r price q v0 in
    let b = route_fill-Reduces i price q (route_fill r price q v0).1 in
    let f = Fills-swap r i q v0 _ (Reduces-Fills r i q v0 _ _ (==_comm r i ∙ ne) a b) in
    record { one = f.one; other = f.other; outside = f.outside; book = f.book; next_id = f.next_id }
