-- ===== src/OrderBook/Match/Parts.antt =====
-- Levels of include/order_book.h side by side: the queues of a part of a side.
use market_maker_ops.Prelude.{◌≡◌, refl, sym, ap, ◌∙◌, List, [], ◌∷◌, ◌++◌, append_assoc}
use market_maker_ops.Order.{Slot, Store}
use market_maker_ops.PriceLevel.{PriceLevel}
use market_maker_ops.OrderBook.Match.Spec.{Queues, slots, resting, resting_at}
use market_maker_ops.OrderBook.Match.Ladder.{Ladder}

pub slots-append : (qs rs : Queues) → slots (qs ++ rs) ≡ slots qs ++ slots rs
slots-append [] rs = refl
slots-append ((p, ps) ∷ qs) rs =
    ap (λ xs. (p ∷ ps) ++ xs) (slots-append qs rs)
    ∙ sym (append_assoc (p ∷ ps) (slots qs) (slots rs))

pub resting-append :
    (m : Store) (ps qs : List Slot) → resting m (ps ++ qs) ≡ resting m ps ++ resting m qs
resting-append m [] qs = refl
resting-append m (p ∷ ps) qs = ap (◌∷◌ (resting_at m p)) (resting-append m ps qs)

pub append-Ladder :
    (m : Store) (ls ks : List PriceLevel) (qs rs : Queues)
    → Ladder m ls qs
    → Ladder m ks rs
    → Ladder m (ls ++ ks) (qs ++ rs)
append-Ladder m [] ks [] rs d e = e
append-Ladder m [] ks (q ∷ qs) rs d e = absurd d
append-Ladder m (l ∷ ls) ks [] rs d e = absurd d
append-Ladder m (l ∷ ls) ks ((p, ps) ∷ qs) rs d e = (d.0, d.1, append-Ladder m ls ks qs rs d.2 e)

pub Ladder-append :
    (m : Store) (ls ks : List PriceLevel) (qs : Queues)
    → Ladder m (ls ++ ks) qs
    → (qa : Queues) × (qb : Queues) × (qs ≡ qa ++ qb) × Ladder m ls qa × Ladder m ks qb
Ladder-append m [] ks qs d = ([], qs, refl, tt, d)
Ladder-append m (l ∷ ls) ks [] d = absurd d
Ladder-append m (l ∷ ls) ks ((p, ps) ∷ qs) d =
    let (qa, qb, e, da, db) = Ladder-append m ls ks qs d.2 in
    ((p, ps) ∷ qa, qb, ap (◌∷◌ (p, ps)) e, (d.0, d.1, da), db)
