-- ===== src/Venue/Dropping.antt =====
-- Cancels of venue/venue.cpp, one or those of a connection that goes, with the book and the table.
use market_maker_ops.Prelude.{
  ℕ, ◌≡◌, refl, sym, subst, ◌∙◌, true, false, Bool, ◌||◌, if_cases, some, none, List, [], ◌∷◌, inl,
  inr, Bool-cases, arith, ◌==◌, ==_comm, lookup, erase, lookup-erase_ne, lookup-erase_self, nat_key,
}
use market_maker_ops.Order.{Side}
use market_maker_ops.OrderBook.{OrderBook, cancel_order}
use market_maker_ops.OrderBook.Levels.{opposite}
use market_maker_ops.OrderBook.Match.Spec.{Resting, slots, resting}
use market_maker_ops.OrderBook.Abstract.{withdraw}
use market_maker_ops.OrderBook.Cancelled.{cancel_order_lem}
use market_maker_ops.Venue.{cancel_all, drop_connection, owned_by}
use market_maker_ops.Venue.State.{ConnId, Venue}
use market_maker_ops.Venue.Mirror.{Table, Mirrored}
use market_maker_ops.Venue.Joining.{IsConsistent}

withdraw-Mirrored :
    (t : Table) (side : Side) (id : ℕ) (rs : List Resting)
    → Mirrored t side rs
    → Mirrored (erase id t) side (withdraw id rs)
withdraw-Mirrored t side id [] m = tt
withdraw-Mirrored t side id (r ∷ rs) m = elim (Bool-cases (r.order_id == id)) [
  | inl e ↦ rw e (withdraw-Mirrored t side id rs m.2)
  | inr ne ↦
      let (lo, e, owner, at_side, at_price, left) = m.0 in
      rw ne (
        (
          lo,
          lookup-erase_ne id r.order_id t (==_comm id r.order_id ∙ ne) ∙ e,
          owner,
          at_side,
          at_price,
          left,
        ),
        m.1,
        withdraw-Mirrored t side id rs m.2,
      )
]

pub cancel_order-IsConsistent :
    (side : Side) (id : ℕ) (b : OrderBook) (t : Table)
    → IsConsistent side b t
    → (b' : OrderBook) × (cancel_order id b ≡ some b') × IsConsistent side b' (erase id t)
cancel_order-IsConsistent side id b t is =
    let (b', own', opp', free', k, w) = cancel_order_lem side id b is.own is.opp is.free is.book in
    (
      b',
      k,
      record {
        own = own';
        opp = opp';
        free = free';
        book = w.book;
        own_known =
            subst (Mirrored (erase id t) side) (sym w.own_orders)
              (withdraw-Mirrored t side id (resting b.pool.orders (slots is.own)) is.own_known);
        opp_known = subst (Mirrored (erase id t) (opposite side)) (sym w.opp_orders) (
            withdraw-Mirrored t (opposite side) id (resting b.pool.orders (slots is.opp))
              is.opp_known);
      },
    )

-- The table without the orders of a list.
abbrev erase_all : List ℕ → Table → Table
erase_all [] t = t
erase_all (id ∷ ids) t = erase_all ids (erase id t)

cancel_all-IsConsistent :
    (side : Side) (ids : List ℕ) (v : Venue)
    → IsConsistent side v.book v.by_engine_id
    → (v' : Venue) × (cancel_all ids v ≡ some v')
      × IsConsistent side v'.book v'.by_engine_id
      × (v'.by_engine_id ≡ erase_all ids v.by_engine_id)
unfolding cancel_all
cancel_all-IsConsistent side [] v is = (v, refl, is, refl)
cancel_all-IsConsistent side (id ∷ ids) v is =
    let (b, k, is1) = cancel_order-IsConsistent side id v.book v.by_engine_id is in
    let (v', k', is', e) =
      cancel_all-IsConsistent side ids
        (record v { book = b; by_engine_id = erase id v.by_engine_id }) is1 in
    (v', rw k k', is', e)

-- No order of the connection.
abbrev pub NoneOwned : ConnId → Table → Type 0
NoneOwned conn [] = Unit {0}
NoneOwned conn ((id, lo) ∷ t) = ((lo.owner == conn) ≡ false) × NoneOwned conn t

-- Is a number in a list?
abbrev is_in : ℕ → List ℕ → Bool
is_in n [] = false
is_in n (m ∷ ms) = (m == n) || is_in n ms

-- Every order of the connection has an id of the list.
abbrev Listed : ConnId → List ℕ → Table → Type 0
Listed conn ids [] = Unit {0}
Listed conn ids ((id, lo) ∷ t) =
    ((lo.owner == conn) ≡ true → is_in id ids ≡ true) × Listed conn ids t

Listed-cons :
    (conn : ConnId) (id : ℕ) (ids : List ℕ) (t : Table)
    → Listed conn ids t
    → Listed conn (id ∷ ids) t
Listed-cons conn id ids [] l = tt
Listed-cons conn id ids ((j, lo) ∷ t) l =
    (λ e. ground (arith, l.0 e), Listed-cons conn id ids t l.1)

owned_by-Listed : (conn : ConnId) (t : Table) → Listed conn (owned_by conn t) t
unfolding owned_by
owned_by-Listed conn [] = tt
owned_by-Listed conn ((id, lo) ∷ t) =
    let rest = owned_by-Listed conn t in
    if_cases (λ ids. Listed conn ids ((id, lo) ∷ t)) (lo.owner == conn)
      (λ e. (λ h. ground arith, Listed-cons conn id (owned_by conn t) t rest))
      (λ e. (λ h. absurd (ground (arith, e, h)), rest))

erase-Listed :
    (conn : ConnId) (id : ℕ) (ids : List ℕ) (t : Table)
    → Listed conn (id ∷ ids) t
    → Listed conn ids (erase id t)
erase-Listed conn id ids [] l = tt
erase-Listed conn id ids ((j, lo) ∷ t) l =
    let rest = erase-Listed conn id ids t l.1 in
    if_cases (Listed conn ids) (j == id) (λ e. rest)
      (λ ne. (λ e. ground (arith, l.0 e, ==_comm id j), rest))

Listed-NoneOwned : (conn : ConnId) (t : Table) → Listed conn [] t → NoneOwned conn t
Listed-NoneOwned conn [] l = tt
Listed-NoneOwned conn ((j, lo) ∷ t) l = (ground (arith, l.0), Listed-NoneOwned conn t l.1)

erase_all-NoneOwned :
    (conn : ConnId) (ids : List ℕ) (t : Table)
    → Listed conn ids t
    → NoneOwned conn (erase_all ids t)
erase_all-NoneOwned conn [] t l = Listed-NoneOwned conn t l
erase_all-NoneOwned conn (id ∷ ids) t l =
    erase_all-NoneOwned conn ids (erase id t) (erase-Listed conn id ids t l)

-- Where the book is well-formed and the table of live orders has every order that rests in it,
-- dropConnection ends without a fault; the book is well-formed and the table has every order that
-- rests in it again, no order in the table is the connection's, and the connection has no records.
pub drop_connection-IsConsistent :
    (side : Side) (conn : ConnId) (v : Venue)
    → IsConsistent side v.book v.by_engine_id
    → (v' : Venue) × (drop_connection conn v ≡ some v')
      × IsConsistent side v'.book v'.by_engine_id
      × NoneOwned conn v'.by_engine_id
      × (lookup conn v'.by_conn ≡ none)
unfolding drop_connection
drop_connection-IsConsistent side conn v is =
    let ids = owned_by conn v.by_engine_id in
    let (v', k, is', e) = cancel_all-IsConsistent side ids v is in
    (
      record v' { by_conn = erase conn v'.by_conn },
      rw k refl,
      is',
      subst (NoneOwned conn) (sym e)
          (erase_all-NoneOwned conn ids v.by_engine_id (owned_by-Listed conn v.by_engine_id)),
      lookup-erase_self conn v'.by_conn,
    )
