-- ===== src/OrderBook/Runs.antt =====
-- The books that the operations of include/order_book.h lead to, from the constructor on.
use market_maker_ops.Prelude.{
  ℕ, ◌<◌, ◌≡◌, refl, sym, subst, ap, ◌∙◌, none, some, List, [], ◌∷◌, arith, length, lookup, nat_key,
}
use market_maker_ops.Order.{Side, buy, sell, Trade, Slot, u32_mod}
use market_maker_ops.OrderPool.Construct.{construct-IsPool, slots_from, length-slots_from}
use market_maker_ops.OrderBook.{OrderBook, create, side_levels, add_limit_order, cancel_order}
use market_maker_ops.OrderBook.Levels.{max_price_levels, opposite}
use market_maker_ops.OrderBook.Match.Spec.{Queues, slots, resting}
use market_maker_ops.OrderBook.Match.Uncrossed.{Clear}
use market_maker_ops.OrderBook.Abstract.{Entered, enter, withdraw}
use market_maker_ops.OrderBook.WellFormed.{IsBook, IsBook-flip}
use market_maker_ops.OrderBook.Add.{Added}
use market_maker_ops.OrderBook.Added.{add_limit_order_lem}
use market_maker_ops.OrderBook.Cancelled.{cancel_order_lem}
use market_maker_ops.OrderBook.Apart.{
  AllRefused, Apart, Apart-flip, withdraw-Apart, enter-Apart, Clear-AllRefused,
}

-- A new book is well-formed, with no order and every slot unused.
pub create-IsBook :
    (n : ℕ) → 0 < n → (b : OrderBook) × (create n ≡ some b) × IsBook buy b [] [] (slots_from 0 n)
unfolding create
create-IsBook n h =
    let (pool, e, c, is) = construct-IsPool n h in
    (
      record { pool = pool; bids = []; asks = []; order_index = []; sequence = 0 },
      rw e refl,
      record {
        pool = is;
        own_side = record { ladder = tt; sorted = tt; on_side = tt };
        opp_side = record { ladder = tt; sorted = tt; on_side = tt };
        distinct = tt;
        apart = λ a i. absurd (ground arith);
        within = tt;
        index = λ id p. (λ k. ground arith, λ (i, k). ground arith);
        full = omega (arith, length-slots_from 0 n, c);
      },
    )

-- The conditions under which the venue is to enter an order.
pub record Enters (side : Side) (quantity id : ℕ) (b : OrderBook) : Type 0 where
  pub fits : quantity < u32_mod
  pub fresh : lookup id b.order_index ≡ none
  pub room : length (side_levels side b) < max_price_levels
  pub unused : 0 < b.pool.free_count

-- One operation on a book.
pub data Step (b : OrderBook) : OrderBook → Type 0 where
  adds :
      (side : Side) (price quantity id who : ℕ) (ts : List Trade) (b' : OrderBook)
      → Enters side quantity id b
      → add_limit_order side price quantity id who b ≡ some (ts, b')
      → Step b b'
  cancels : (id : ℕ) (b' : OrderBook) → cancel_order id b ≡ some b' → Step b b'

-- The books that a book of `n` slots becomes.
pub data Reach (n : ℕ) : OrderBook → Type 0 where
  created : (b : OrderBook) → 0 < n → create n ≡ some b → Reach n b
  next : {b b' : OrderBook} → Reach n b → Step b b' → Reach n b'

-- A well-formed book, seen from a side, whose two sides do not accept each other.
pub record IsFair (side : Side) (b : OrderBook) : Type 0 where
  pub own : Queues
  pub opp : Queues
  pub free : List Slot
  pub book : IsBook side b own opp free
  pub apart : Apart side (resting b.pool.orders (slots own)) (resting b.pool.orders (slots opp))

IsFair-flip : (side : Side) (b : OrderBook) → IsFair side b → IsFair (opposite side) b
IsFair-flip side b f = record {
  own = f.opp;
  opp = f.own;
  free = f.free;
  book = IsBook-flip side b f.own f.opp f.free f.book;
  apart =
      Apart-flip side (resting b.pool.orders (slots f.own)) (resting b.pool.orders (slots f.opp))
        f.apart;
}

-- An unused slot, from the pool's count.
pub first_unused :
    (free : List Slot) → 0 < length free → (o : Slot) × (rest : List Slot) × (free ≡ o ∷ rest)
first_unused [] h = absurd (omega arith)
first_unused (o ∷ free) h = (o, free, refl)

Added-Apart :
    (side : Side) (id who price quantity : ℕ) (b : OrderBook) (own opp : Queues) (ts : List Trade)
    (b' : OrderBook) (own' opp' : Queues) (free' : List Slot)
    → Added side id who price quantity b own opp ts b' own' opp' free'
    → Apart side (resting b.pool.orders (slots own)) (resting b.pool.orders (slots opp))
    → Apart side (resting b'.pool.orders (slots own')) (resting b'.pool.orders (slots opp'))
Added-Apart side id who price quantity b own opp ts b' own' opp' free' a apart =
    let rs = resting b.pool.orders (slots own) in
    let ss = resting b.pool.orders (slots opp) in
    let own_lem = ap (λ (e : Entered). e.own) a.entered in
    let opp_lem = ap (λ (e : Entered). e.opposite) a.entered in
    let kept =
      enter-Apart side id who price quantity rs ss
        (subst (λ l. Clear side price l → AllRefused side price l) opp_lem
          (Clear-AllRefused side price b'.pool.orders (side_levels (opposite side) b') opp'
            a.book.opp_side.sorted a.book.opp_side.ladder))
        apart in
    subst (λ l. Apart side l (resting b'.pool.orders (slots opp'))) (sym own_lem)
      (subst (Apart side (enter side id who price quantity rs ss).own) (sym opp_lem) kept)

add_limit_order-IsFair :
    (side : Side) (price quantity id who : ℕ) (b : OrderBook)
    → IsFair side b
    → Enters side quantity id b
    → (ts : List Trade) × (b' : OrderBook) × (add_limit_order side price quantity id who b
        ≡ some (ts, b'))
      × IsFair side b'
add_limit_order-IsFair side price quantity id who b f c =
    let (o, rest, e) = first_unused f.free (subst (λ n. 0 < n) f.book.pool.count c.unused) in
    let (ts, b', own', opp', free', k, a) =
      add_limit_order_lem side price quantity id who b f.own f.opp o rest
        (subst (IsBook side b f.own f.opp) e f.book) c.fits c.fresh c.room in
    (
      ts,
      b',
      k,
      record {
        own = own';
        opp = opp';
        free = free';
        book = a.book;
        apart =
            Added-Apart side id who price quantity b f.own f.opp ts b' own' opp' free' a f.apart;
      },
    )

cancel_order-IsFair :
    (side : Side) (id : ℕ) (b : OrderBook)
    → IsFair side b
    → (b' : OrderBook) × (cancel_order id b ≡ some b') × IsFair side b'
cancel_order-IsFair side id b f =
    let (b', own', opp', free', k, w) = cancel_order_lem side id b f.own f.opp f.free f.book in
    let rs = resting b.pool.orders (slots f.own) in
    let ss = resting b.pool.orders (slots f.opp) in
    (
      b',
      k,
      record {
        own = own';
        opp = opp';
        free = free';
        book = w.book;
        apart =
            subst (λ l. Apart side l (resting b'.pool.orders (slots opp'))) (sym w.own_orders)
              (subst (Apart side (withdraw id rs)) (sym w.opp_orders)
                (withdraw-Apart side id rs ss f.apart));
      },
    )

-- The buyers' view of what the incoming order's side shows.
pub enters_lem :
    (side : Side) (price quantity id who : ℕ) (b : OrderBook)
    → IsFair buy b
    → Enters side quantity id b
    → (ts : List Trade) × (b' : OrderBook) × (add_limit_order side price quantity id who b
        ≡ some (ts, b'))
      × IsFair buy b'
enters_lem buy price quantity id who b f c = add_limit_order-IsFair buy price quantity id who b f c
enters_lem sell price quantity id who b f c =
    let (ts, b', e, g) =
      add_limit_order-IsFair sell price quantity id who b (IsFair-flip buy b f) c in
    (ts, b', e, IsFair-flip sell b' g)

Step-IsFair : {b b' : OrderBook} → Step b b' → IsFair buy b → IsFair buy b'
Step-IsFair (adds side price quantity id who ts b' c e) f =
    let (ts1, b1, e1, g) = enters_lem side price quantity id who _ f c in
    subst (IsFair buy) (cc (sym e1 ∙ e)) g
Step-IsFair (cancels id b' e) f =
    let (b1, e1, g) = cancel_order-IsFair buy id _ f in subst (IsFair buy) (cc (sym e1 ∙ e)) g

created_lem : (n : ℕ) (b : OrderBook) → 0 < n → create n ≡ some b → IsFair buy b
created_lem n b h e =
    let (b1, e1, is) = create-IsBook n h in
    let same : b1 ≡ b = cc (sym e1 ∙ e) in
    subst (IsFair buy) same
      (record { own = []; opp = []; free = slots_from 0 n; book = is; apart = tt })

-- Every book that addLimitOrder (of a 32-bit quantity under an id that is not in the book, with an
-- unused slot and fewer than 4096 levels on its side) and cancelOrder lead to from a new book is
-- well-formed (its levels are the queues of live orders, sorted by price, each slot is in one queue
-- or unused, the index has exactly the live orders), and no bid of it is at the price of an ask or
-- above.
pub Reach-IsFair : {n : ℕ} {b : OrderBook} → Reach n b → IsFair buy b
Reach-IsFair (created b h e) = created_lem _ b h e
Reach-IsFair (next r st) = Step-IsFair st (Reach-IsFair r)
