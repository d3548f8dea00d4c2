-- ===== src/OrderBook/Match/Cross.antt =====
-- `cross` one order at a time.
use market_maker_ops.Prelude.{
  ℕ, ◌-◌, ◌<◌, ◌≡◌, refl, true, false, List, [], ◌∷◌, ◌||◌, arith, ltb, ◌==◌, if_cases,
}
use market_maker_ops.Order.{Side, buy, sell}
use market_maker_ops.OrderBook.Match.{misses, trade_of}
use market_maker_ops.OrderBook.Match.Spec.{refuses, Resting, Crossed, shrink, cross}

pub misses-refuses :
    (side : Side) (limit price : ℕ) → misses side limit price ≡ refuses side limit price
misses-refuses buy limit price = refl
misses-refuses sell limit price = refl

module _ (side : Side) (id who price q : ℕ) where
  abbrev stop : List Resting → Crossed
  stop rs = record { trades = []; left = q; book = rs }

  pub cross-zero : (rs : List Resting) → q ≡ 0 → cross side id who price q rs ≡ stop rs
  cross-zero [] h = refl
  cross-zero (r ∷ rs) h =
      if_cases (λ c. c ≡ stop (r ∷ rs)) ((q == 0) || refuses side price r.price) (λ e. refl)
        (λ e. absurd (ground arith))

  module _ (r : Resting) (rs : List Resting) where
    pub cross-misses :
        refuses side price r.price ≡ true → cross side id who price q (r ∷ rs) ≡ stop (r ∷ rs)
    cross-misses h =
        if_cases (λ c. c ≡ stop (r ∷ rs)) ((q == 0) || refuses side price r.price) (λ e. refl)
          (λ e. absurd (ground arith))

    module _ (pos : 0 < q) (hit : refuses side price r.price ≡ false) where
      open_lem : ((q == 0) || refuses side price r.price) ≡ false
      open_lem = ground arith

      pub cross_self :
          (r.participant_id == who) ≡ true
          → cross side id who price q (r ∷ rs) ≡ record { trades = []; left = 0; book = r ∷ rs }
      cross_self h = rw (open_lem, h) refl

      pub cross-shrink :
          (r.participant_id == who) ≡ false
          → ltb q r.quantity ≡ true
          → cross side id who price q (r ∷ rs) ≡ record {
            trades = trade_of side id r.order_id r.price q ∷ [];
            left = 0;
            book = shrink r q ∷ rs;
          }
      cross-shrink h k = rw (open_lem, h, k) refl

      pub cross-pop :
          (r.participant_id == who) ≡ false
          → ltb q r.quantity ≡ false
          → cross side id who price q (r ∷ rs) ≡ (
              let rest = cross side id who price (q - r.quantity) rs in
              record rest { trades = trade_of side id r.order_id r.price r.quantity ∷ rest.trades })
      cross-pop h k = rw (open_lem, h, k) refl
