-- ===== src/OrderBook/Match/Invariant.antt =====
-- What holds before every round of the loop of `matchBuy` and `matchSell` of include/order_book.h.
use market_maker_ops.Prelude.{
  ℕ, ◌<◌, ◌≡◌, refl, sym, subst, ap, some, List, [], ◌∷◌, ◌++◌, min, if◌then◌else◌, nat_key,
}
use market_maker_ops.Order.{Side, Order, Slot, Store, u32_mod}
use market_maker_ops.PriceLevel.{PriceLevel, sub32, is_null}
use market_maker_ops.PriceLevel.Links.{◌∉◌, Distinct, Disjoint}
use market_maker_ops.PriceLevel.Queue.{IsQueue}
use market_maker_ops.OrderPool.FreeList.{IsPool, Within}
use market_maker_ops.OrderBook.Levels.{drop_empty}
use market_maker_ops.OrderBook.Match.{Matching, with_orders, trade_of, retire, fill}
use market_maker_ops.OrderBook.Match.Spec.{Queues, slots}
use market_maker_ops.OrderBook.Match.Ladder.{Rests, Ladder}
use market_maker_ops.OrderBook.Match.Fill.{after_fill, Filled}

-- The loop works on the incoming order in slot `o`, against levels with the queues `qs`.
pub record IsMatching (o : Slot) (id who : ℕ) (s : Matching) (qs : Queues) (free : List Slot)
    : Type 0 where
  pub ladder : Ladder s.pool.orders s.levels qs
  pub pool : IsPool s.pool free
  pub distinct : Distinct (slots qs)
  pub apart : Disjoint (slots qs) free
  pub within : Within s.pool.capacity (slots qs)
  pub outside : o ∉ slots qs
  pub bound : (s.pool.orders o).quantity < u32_mod
  pub order_id : (s.pool.orders o).order_id ≡ id
  pub participant_id : (s.pool.orders o).participant_id ≡ who

pub fill-retire :
    (side : Side) (o r : Slot) (pl : PriceLevel) (rest : List PriceLevel) (s s' : Matching) (q : ℕ)
    → min (s.pool.orders o).quantity (s.pool.orders r).quantity ≡ q
    → Filled o r q s.pool.orders (after_fill s.pool.orders o r q)
    → retire r
        (record pl { total_quantity = sub32 pl.total_quantity q })
        rest
        (record s { pool = with_orders (after_fill s.pool.orders o r q) s.pool })
      ≡ some s'
    → fill side o r pl rest s
      ≡ some (trade_of side (s.pool.orders o).order_id (s.pool.orders r).order_id pl.price q, s')
unfolding fill
fill-retire side o r pl rest s s' q least f e =
    rw (least, e)
      (rw (ap (λ (x : Order). x.order_id) f.incoming, ap (λ (x : Order). x.order_id) f.resting)
        refl)

-- What is left of a side when the order at its head is gone.
abbrev pub pop : List Slot → Queues → Queues
pop [] qs = qs
pop (p ∷ ps) qs = (p, ps) ∷ qs

pub slots-pop : (ps : List Slot) (qs : Queues) → slots (pop ps qs) ≡ ps ++ slots qs
slots-pop [] qs = refl
slots-pop (p ∷ ps) qs = refl

pub pop-Ladder :
    (m : Store) (l : PriceLevel) (ls : List PriceLevel) (ps : List Slot) (qs : Queues)
    → IsQueue m l ps
    → Rests m l.price ps
    → Ladder m ls qs
    → Ladder m (drop_empty l ls) (pop ps qs)
pop-Ladder m l ls [] qs q r d =
    subst (λ b. Ladder m (if b then ls else l ∷ ls) qs) (sym (ap is_null q.head)) d
pop-Ladder m l ls (p ∷ ps) qs q r d =
    subst (λ b. Ladder m (if b then ls else l ∷ ls) ((p, ps) ∷ qs)) (sym (ap is_null q.head))
      (q, r, d)
