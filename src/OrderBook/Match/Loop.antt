-- ===== src/OrderBook/Match/Loop.antt =====
-- The loop of `matchBuy` and `matchSell` of include/order_book.h against `cross`.
use market_maker_ops.Prelude.{
  ℕ, zero, suc, ◌-◌, ◌<◌, ◌≡◌, refl, sym, subst, ap, ◌∙◌, Bool-cases, true, false, inl, inr, some,
  List, [], ◌∷◌, ◌++◌, arith, ltb, ltb→lt, ◌==◌, if_cases,
}
use market_maker_ops.Order.{Side, Trade, Slot}
use market_maker_ops.PriceLevel.{PriceLevel}
use market_maker_ops.OrderBook.Match.{
  Matching, Matched, misses, trade_of, fill, meet, match_round, match_loop,
}
use market_maker_ops.OrderBook.Match.Spec.{
  refuses, Resting, Crossed, cross, Queues, slots, resting, resting_at,
}
use market_maker_ops.OrderBook.Match.Progress.{Progress, Progress-trans}
use market_maker_ops.OrderBook.Match.Invariant.{IsMatching, pop}
use market_maker_ops.OrderBook.Match.Round.{
  shrunk, shrunk-done, shrunk-IsMatching, shrunk-Progress, resting-shrunk, fill-shrunk, fill-popped,
}
use market_maker_ops.OrderBook.Match.Cross.{
  misses-refuses, cross-zero, cross-misses, cross_self, cross-shrink, cross-pop,
}
use market_maker_ops.OrderBook.Match.Outcome.{
  Crosses, same_participant, meet_self, meet-fill, stays, cancels,
}

module _ (next : Matching → Matched) (side : Side) (o : Slot) (id who price n : ℕ) where
  extend :
      (r : Slot) (pl : PriceLevel) (rest : List PriceLevel) (s s' : Matching) (t : Trade)
      (c : Crossed) (qs : Queues) (free : List Slot) (qs' : Queues) (free' : List Slot)
      → same_participant next side o r pl rest s ≡ false
      → fill side o r pl rest s ≡ some (t, s')
      → Progress o s qs free s' qs' free'
      → Crosses o id who s' qs' free' c (next s')
      → Crosses o id who s qs free
          (record c { trades = t ∷ c.trades })
          (meet next side o pl rest (some r) s)
  extend r pl rest s s' t c qs free qs' free' h e p (s'', qs'', free'', k, is, left, book, p') = (
    s'',
    qs'',
    free'',
    meet-fill next side o r pl rest s t c.trades s' s'' h e k,
    is,
    left,
    book,
    Progress-trans o s qs free s' qs' free' s'' qs'' free'' p p',
  )

  -- The rounds that follow do what the specification says, for quantities below `n`.
  abbrev Follows : Type 0
  Follows =
      (s : Matching) (qs : Queues) (free : List Slot)
      → IsMatching o id who s qs free
      → (s.pool.orders o).quantity < n
      → Crosses o id who s qs free
          (cross side id who price (s.pool.orders o).quantity (resting s.pool.orders (slots qs)))
          (next s)

  module _ (follows : Follows) (s : Matching) (r : Slot) (ps : List Slot) (qs : Queues)
      (free : List Slot) (pl : PriceLevel) (rest : List PriceLevel)
      (is : IsMatching o id who (record s { levels = pl ∷ rest }) ((r, ps) ∷ qs) free)
      (pos : 0 < (s.pool.orders o).quantity) (bound : (s.pool.orders o).quantity < suc n)
      (hit : misses side price pl.price ≡ false) where
    abbrev here : Matching
    here = record s { levels = pl ∷ rest }

    abbrev q : ℕ
    q = (s.pool.orders o).quantity

    abbrev at_head : Resting
    at_head = resting_at s.pool.orders r

    abbrev after_head : List Resting
    after_head = resting s.pool.orders (ps ++ slots qs)

    abbrev Meets : Crossed → Type 0
    Meets c = Crosses o id who here ((r, ps) ∷ qs) free c (meet next side o pl rest (some r) here)

    hit_head : refuses side price at_head.price ≡ false
    hit_head =
        sym (misses-refuses side price at_head.price) ∙ ap (misses side price) is.ladder.1.0 ∙ hit

    who_head : (at_head.participant_id == who) ≡ same_participant next side o r pl rest here
    who_head = ap (λ w. at_head.participant_id == w) (sym is.participant_id)

    trade_lem :
        (k : ℕ)
        → trade_of side (s.pool.orders o).order_id at_head.order_id pl.price k
          ≡ trade_of side id at_head.order_id at_head.price k
    trade_lem k = rw (is.order_id, is.ladder.1.0) refl

    meet-cross_self :
        same_participant next side o r pl rest here ≡ true
        → Meets (cross side id who price q (at_head ∷ after_head))
    meet-cross_self h =
        subst Meets
          (sym (cross_self side id who price q at_head after_head pos hit_head (who_head ∙ h)))
          (subst (Crosses o id who here ((r, ps) ∷ qs) free _)
            (sym (meet_self next side o r pl rest here h))
            (cancels o id who here ((r, ps) ∷ qs) free is))

    meet-cross_shrink :
        same_participant next side o r pl rest here ≡ false
        → ltb q at_head.quantity ≡ true
        → Meets (cross side id who price q (at_head ∷ after_head))
    meet-cross_shrink h k =
        let lt = ltb→lt q at_head.quantity k in
        let done = shrunk-done o id who here r ps qs free pl rest is lt in
        let s' = shrunk o r pl rest here in
        let all = resting s'.pool.orders (slots ((r, ps) ∷ qs)) in
        let run =
          follows s' ((r, ps) ∷ qs) free
            (shrunk-IsMatching o id who here r ps qs free pl rest is lt) (omega (arith, done)) in
        let ended =
          extend r pl rest here s' _ _ ((r, ps) ∷ qs) free ((r, ps) ∷ qs) free h
            (fill-shrunk o id who here r ps qs free pl rest is lt side)
            (shrunk-Progress o id who here r ps qs free pl rest is lt)
            (subst (λ c. Crosses o id who s' ((r, ps) ∷ qs) free c (next s'))
              (cross-zero side id who price (s'.pool.orders o).quantity all done) run) in
        subst Meets
          (sym (cross-shrink side id who price q at_head after_head pos hit_head (who_head ∙ h) k))
          (subst Meets
            (rw (trade_lem q, done, resting-shrunk o id who here r ps qs free pl rest is lt) refl)
            ended)

    meet-cross_pop :
        same_participant next side o r pl rest here ≡ false
        → ltb q at_head.quantity ≡ false
        → Meets (cross side id who price q (at_head ∷ after_head))
    meet-cross_pop h k =
        let (s', e, ism, left, book, progress) =
          fill-popped o id who here r ps qs free pl rest is (ground arith) side in
        let run = follows s' (pop ps qs) (r ∷ free) ism (omega (arith, left, is.ladder.1.1)) in
        let c = cross side id who price (q - at_head.quantity) after_head in
        let same : cross side id who price (s'.pool.orders o).quantity
              (resting s'.pool.orders (slots (pop ps qs)))
            ≡ c =
          rw (left, book) refl in
        let ended =
          extend r pl rest here s' _ c ((r, ps) ∷ qs) free (pop ps qs) (r ∷ free) h e progress
            (subst (λ c'. Crosses o id who s' (pop ps qs) (r ∷ free) c' (next s')) same run) in
        subst Meets
          (sym (cross-pop side id who price q at_head after_head pos hit_head (who_head ∙ h) k))
          (subst (λ t. Meets (record c { trades = t ∷ c.trades })) (trade_lem at_head.quantity)
            ended)

    meet-cross : Meets (cross side id who price q (at_head ∷ after_head))
    meet-cross = elim (Bool-cases (same_participant next side o r pl rest here)) [
      | inl h ↦ meet-cross_self h
      | inr h ↦ elim (Bool-cases (ltb q at_head.quantity)) [
        | inl k ↦ meet-cross_shrink h k
        | inr k ↦ meet-cross_pop h k
      ]
    ]

-- A run of the round at the best level, if there is one and its price is good.
round-cross :
    (next : Matching → Matched) (side : Side) (o : Slot) (id who price n : ℕ)
    → Follows next side o id who price n
    → (s : Matching) (levels : List PriceLevel) (qs : Queues) (free : List Slot)
    → IsMatching o id who (record s { levels = levels }) qs free
    → 0 < (s.pool.orders o).quantity
    → (s.pool.orders o).quantity < suc n
    → Crosses o id who
        (record s { levels = levels })
        qs
        free
        (cross side id who price (s.pool.orders o).quantity (resting s.pool.orders (slots qs)))
        (match_round next side o price levels (record s { levels = levels }))
unfolding match_round
round-cross next side o id who price n follows s [] [] free is pos bound =
    stays o id who (record s { levels = [] }) [] free is
round-cross next side o id who price n follows s [] (q ∷ qs) free is pos bound = absurd is.ladder
round-cross next side o id who price n follows s (l ∷ ls) [] free is pos bound = absurd is.ladder
round-cross next side o id who price n follows s (l ∷ ls) ((r, ps) ∷ qs) free is pos bound =
    let st : Matching = record s { levels = l ∷ ls } in
    let rs = resting s.pool.orders (slots ((r, ps) ∷ qs)) in
    let q = (s.pool.orders o).quantity in
    if_cases (Crosses o id who st ((r, ps) ∷ qs) free (cross side id who price q rs))
      (misses side price l.price)
      (λ e.
        subst (λ c. Crosses o id who st ((r, ps) ∷ qs) free c (some ([], st)))
          (sym (
            cross-misses side id who price q (resting_at s.pool.orders r)
              (resting s.pool.orders (ps ++ slots qs))
              (sym (misses-refuses side price (s.pool.orders r).price)
                ∙ ap (misses side price) is.ladder.1.0
                ∙ e)))
          (stays o id who st ((r, ps) ∷ qs) free is))
      (λ e.
        subst
          (λ h.
            Crosses o id who st ((r, ps) ∷ qs) free (cross side id who price q rs)
              (meet next side o l ls h st))
          (sym is.ladder.0.head)
          (meet-cross next side o id who price n follows s r ps qs free l ls is pos bound e))

-- In a state that is well-formed, with more rounds than the incoming quantity, the loop ends without
-- a failed assertion: the trades, what is left of the incoming order and the orders that stay are
-- those of `cross` on the list of the resting orders, and the state is well-formed again; the filled
-- orders leave the level, the index and the pool, and nothing but these, the orders that rest and the
-- incoming one is touched.
pub match_loop_lem :
    (fuel : ℕ) (side : Side) (o : Slot) (id who price : ℕ) (s : Matching) (qs : Queues)
    (free : List Slot)
    → IsMatching o id who s qs free
    → (s.pool.orders o).quantity < fuel
    → Crosses o id who s qs free
        (cross side id who price (s.pool.orders o).quantity (resting s.pool.orders (slots qs)))
        (match_loop fuel side o price s)
unfolding match_loop
match_loop_lem zero side o id who price s qs free is h = absurd (omega arith)
match_loop_lem (suc f) side o id who price s qs free is h =
    let rs = resting s.pool.orders (slots qs) in
    let c = cross side id who price (s.pool.orders o).quantity rs in
    if_cases (Crosses o id who s qs free c) (ltb 0 (s.pool.orders o).quantity)
      (λ e.
        round-cross (match_loop f side o price) side o id who price f
          (λ s qs free is h. match_loop_lem f side o id who price s qs free is h) s s.levels qs free
          is (ltb→lt 0 (s.pool.orders o).quantity e) h)
      (λ e.
        subst (λ c. Crosses o id who s qs free c (some ([], s)))
          (sym (cross-zero side id who price (s.pool.orders o).quantity rs (ground arith)))
          (stays o id who s qs free is))
