-- ===== src/Venue/Accepting.antt =====
-- The order that `handleNewOrder` of venue/venue.cpp accepts, with the book and the table of live orders.
use market_maker_ops.Prelude.{
  ℕ, ◌+◌, ◌%◌, ◌<◌, ◌≡◌, refl, sym, subst, ap, ◌∙◌, some, List, ◌∷◌, ◌++◌, insert,
  lookup-insert_self, nat_key, bytes_key, codes,
}
use market_maker_ops.Order.{Trade, u64_mod}
use market_maker_ops.OrderBook.{OrderBook, add_limit_order}
use market_maker_ops.OrderBook.Match.Spec.{cross}
use market_maker_ops.OrderBook.Abstract.{Entered}
use market_maker_ops.OrderBook.WellFormed.{IsBook}
use market_maker_ops.OrderBook.Added.{add_limit_order_lem}
use market_maker_ops.OrderBook.Runs.{Enters, first_unused}
use market_maker_ops.Protocol.Inbound.{InboundMessage}
use market_maker_ops.OrderBook.Levels.{opposite}
use market_maker_ops.Protocol.Number.{to_decimal}
use market_maker_ops.Venue.State
use market_maker_ops.Venue.State.{ConnId, LiveOrder, ClientRecord, ClientTable, Sent, Venue, ack}
use market_maker_ops.Venue.Fills.{on_trades}
use market_maker_ops.Venue.Requests.{to_engine_side, accept_order}
use market_maker_ops.Venue.Admission.{NoOwnCross}
use market_maker_ops.Venue.Mirror.{remains-some, Mirrored, Traded, cross-Traded}
use market_maker_ops.Venue.Joining.{own-Mirrored, IsConsistent, met, start-Meets}

-- What `byEngineId_` gets for an order that is accepted.
abbrev live_order : ConnId → InboundMessage → ℕ → LiveOrder
live_order conn m id = record {
  owner = conn;
  client_order_id = m.client_order_id;
  exchange_id = codes "e-" ++ to_decimal id;
  side = m.side;
  price_ticks = m.price_ticks;
  remaining = m.qty;
}

-- The venue with the order in its tables, and the book that it leaves.
abbrev entered : ConnId → ClientTable → InboundMessage → OrderBook → Venue → Venue
entered conn table m b v =
    let id : ℕ = v.next_engine_id in
    let client : ClientRecord = record {
      state = State.resting;
      exchange_id = codes "e-" ++ to_decimal id;
      engine_id = id;
    } in
    record v {
      next_engine_id = (id + 1) % u64_mod;
      by_engine_id = insert id (live_order conn m id) v.by_engine_id;
      by_conn = insert conn (insert m.client_order_id client table) v.by_conn;
      book = b;
    }

accept_order-run :
    (conn : ConnId) (table : ClientTable) (m : InboundMessage) (v : Venue) (ts : List Trade)
    (b : OrderBook)
    → add_limit_order (to_engine_side m.side) m.price_ticks m.qty v.next_engine_id conn v.book
      ≡ some (ts, b)
    → (let r = on_trades ts (entered conn table m b v) in
        accept_order conn table m v
        ≡ some
            ((conn, ack m.client_order_id (codes "e-" ++ to_decimal v.next_engine_id)) ∷ r.0, r.1))
unfolding accept_order
accept_order-run conn table m v ts b e = rw e refl

-- Where the book is well-formed and the table of live orders has every order that rests in it, an order
-- of a quantity other than 0 that the book lets in, from a connection with no order that would match
-- it, is accepted without a fault: its sender is sent the ack first, the book is well-formed and the
-- table has every order that rests in it again, and the next id is one up.
pub accept_order-IsConsistent :
    (conn : ConnId) (table : ClientTable) (m : InboundMessage) (v : Venue)
    → IsConsistent (to_engine_side m.side) v.book v.by_engine_id
    → Enters (to_engine_side m.side) m.qty v.next_engine_id v.book
    → 0 < m.qty
    → NoOwnCross conn m.side m.price_ticks v.by_engine_id
    → (sent : Sent) × (v' : Venue) × (accept_order conn table m v
        ≡ some
            ((conn, ack m.client_order_id (codes "e-" ++ to_decimal v.next_engine_id)) ∷ sent, v'))
      × IsConsistent (to_engine_side m.side) v'.book v'.by_engine_id
      × (v'.next_engine_id ≡ (v.next_engine_id + 1) % u64_mod)
accept_order-IsConsistent conn table m v is enters pos no_cross =
    let side = to_engine_side m.side in
    let i = v.next_engine_id in
    let t = v.by_engine_id in
    let lo = live_order conn m i in
    let ss = met m v.book t is i enters.fresh lo conn no_cross in
    let (o, rest, e) = first_unused is.free (subst (λ n. 0 < n) is.book.pool.count enters.unused) in
    let (ts, b', own', opp', free', k, a) =
      add_limit_order_lem side m.price_ticks m.qty i conn v.book is.own is.opp o rest
        (subst (IsBook side v.book is.own is.opp) e is.book) enters.fits enters.fresh enters.room in
    let c = cross side i conn m.price_ticks m.qty ss in
    let v0 = entered conn table m b' v in
    let v' = (on_trades c.trades v0).1 in
    let d : Traded (opposite side) i lo ss c v0 v' =
      cross-Traded side (opposite side) i conn m.price_ticks lo m.qty ss v0
        (lookup-insert_self i lo t ∙ sym (remains-some lo m.qty pos))
        (start-Meets m v.book t is i enters.fresh lo conn no_cross) in
    let trades_lem : ts ≡ c.trades = ap (λ (x : Entered). x.trades) a.entered in
    (
      (on_trades c.trades v0).0,
      v',
      accept_order-run conn table m v c.trades b' (
          subst (λ x. add_limit_order side m.price_ticks m.qty i conn v.book ≡ some (x, b'))
            trades_lem k),
      subst (λ b. IsConsistent side b v'.by_engine_id) (sym d.book)
          (record {
            own = own';
            opp = opp';
            free = free';
            book = a.book;
            own_known =
                subst (Mirrored v'.by_engine_id side) (sym (ap (λ (x : Entered). x.own) a.entered))
                  (own-Mirrored m v.book t is i enters.fresh lo conn no_cross c v0 v' refl d refl
                    refl refl);
            opp_known =
                subst (Mirrored v'.by_engine_id (opposite side))
                  (sym (ap (λ (x : Entered). x.opposite) a.entered)) d.mirrored;
          }),
      d.next_id,
    )
