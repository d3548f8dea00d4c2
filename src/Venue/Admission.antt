-- ===== src/Venue/Admission.antt =====
-- Which orders `handleNewOrder` of venue/venue.cpp admits.
use market_maker_ops.Prelude.{
  ℕ, ◌<◌, ◌≡◌, ◌≢◌, inl, inr, refl, ap, ◌∙◌, true, false, not, ◌||◌, Option, none, some, List, [],
  ◌∷◌, arith, leb, ◌==◌, Bool-cases, if_cases, length, lookup, insert, nat_key, bytes_key, bytes_eq,
  bytes_eq_iff, Bytes,
}
use market_maker_ops.Protocol.Inbound.{InboundMessage, OrderSide}
use market_maker_ops.Venue.State.{symbol, ConnId, LiveOrder, ClientRecord, reject, Venue, Step}
use market_maker_ops.Venue.Requests.{
  table_of, crosses, self_cross, would_self_cross, accept_order, check_new, admit, handle_new_order,
}

-- No live order of the connection stands on the other side at a price that would match.
abbrev pub NoOwnCross : ConnId → OrderSide → ℕ → List (ℕ × LiveOrder) → Type 0
NoOwnCross conn side price [] = Unit {0}
NoOwnCross conn side price ((id, lo) ∷ los) =
    (lo.owner ≡ conn → crosses side price lo ≡ false) × NoOwnCross conn side price los

-- `wouldSelfCross` is false exactly when there is no such order.
pub self_cross-false :
    (conn : ConnId) (side : OrderSide) (price : ℕ) (los : List (ℕ × LiveOrder))
    → self_cross conn side price los ≡ false
    → NoOwnCross conn side price los
unfolding self_cross
self_cross-false conn side price [] h = tt
self_cross-false conn side price ((id, lo) ∷ los) h =
    (λ e. ground arith, self_cross-false conn side price los (ground arith))

pub NoOwnCross-self_cross :
    (conn : ConnId) (side : OrderSide) (price : ℕ) (los : List (ℕ × LiveOrder))
    → NoOwnCross conn side price los
    → self_cross conn side price los ≡ false
unfolding self_cross
NoOwnCross-self_cross conn side price [] h = refl
NoOwnCross-self_cross conn side price ((id, lo) ∷ los) h = elim (Bool-cases (lo.owner == conn)) [
  | inl own ↦ rw (own, h.0 (ground arith)) (NoOwnCross-self_cross conn side price los h.1)
  | inr other ↦ rw other (NoOwnCross-self_cross conn side price los h.1)
]

-- What an order must meet to be admitted.
pub record Admissible (conn : ConnId) (m : InboundMessage) (v : Venue) : Type 0 where
  pub has_id : m.has_client_order_id ≡ true
  pub has_symbol : m.has_symbol ≡ true
  pub our_symbol : m.symbol ≡ symbol
  pub has_side : m.has_side ≡ true
  pub has_price : m.has_price ≡ true
  pub has_qty : m.has_qty ≡ true
  pub some_qty : m.qty ≢ 0
  pub new_id : lookup m.client_order_id (table_of conn v.by_conn) ≡ none
  pub room : length v.by_engine_id < v.soft_cap
  pub no_cross : NoOwnCross conn m.side m.price_ticks v.by_engine_id

-- The venue with a table for the connection.
abbrev pub with_table : ConnId → Venue → Venue
with_table conn v = record v { by_conn = insert conn (table_of conn v.by_conn) v.by_conn }

-- A refusal: one reject to the sender, and nothing else changes but that the connection may now
-- have a table.
pub data Refused (conn : ConnId) (v : Venue) : Step → Type 0 where
  unchanged : (cid reason : Bytes) → Refused conn v (some ((conn, reject cid reason) ∷ [], v))
  with_new_table :
      (cid reason : Bytes)
      → Refused conn v (some ((conn, reject cid reason) ∷ [], with_table conn v))

module _ (conn : ConnId) (m : InboundMessage) (v : Venue) where
  fresh-accept :
      length v.by_engine_id < v.soft_cap
      → NoOwnCross conn m.side m.price_ticks v.by_engine_id
      → check_new none conn (table_of conn v.by_conn) m (with_table conn v)
        ≡ accept_order conn (table_of conn v.by_conn) m (with_table conn v)
  unfolding check_new would_self_cross
  fresh-accept room clear =
      let crossing = NoOwnCross-self_cross conn m.side m.price_ticks v.by_engine_id clear in
      ground arith

  fresh-Refused :
      (length v.by_engine_id < v.soft_cap → NoOwnCross conn m.side m.price_ticks v.by_engine_id → ⊥)
      → Refused conn v (check_new none conn (table_of conn v.by_conn) m (with_table conn v))
  unfolding check_new would_self_cross
  fresh-Refused never = elim (Bool-cases (leb v.soft_cap (length v.by_engine_id))) [
    | inl full ↦ rw full (with_new_table m.client_order_id _)
    | inr room ↦ rw room (elim (Bool-cases (self_cross conn m.side m.price_ticks v.by_engine_id)) [
      | inl crossing ↦ rw crossing (with_new_table m.client_order_id _)
      | inr clear ↦
          absurd
            (never (ground arith) (self_cross-false conn m.side m.price_ticks v.by_engine_id clear))
    ])
  ]

  admit-accept :
      Admissible conn m v
      → admit conn m v ≡ accept_order conn (table_of conn v.by_conn) m (with_table conn v)
  unfolding admit
  admit-accept ok =
      ap
        (λ (r : Option ClientRecord).
          check_new r conn (table_of conn v.by_conn) m (with_table conn v))
        ok.new_id
      ∙ fresh-accept ok.room ok.no_cross

  checked-Refused :
      (r : Option ClientRecord)
      → (r ≡ none
          → length v.by_engine_id < v.soft_cap
          → NoOwnCross conn m.side m.price_ticks v.by_engine_id
          → ⊥)
      → Refused conn v (check_new r conn (table_of conn v.by_conn) m (with_table conn v))
  checked-Refused none never = fresh-Refused (never refl)
  checked-Refused (some r) never = unfold check_new in with_new_table m.client_order_id _

  -- An order that meets the conditions is accepted.
  pub handle_new_order-Admissible :
      Admissible conn m v
      → handle_new_order conn m v
        ≡ accept_order conn (table_of conn v.by_conn) m (with_table conn v)
  unfolding handle_new_order
  handle_new_order-Admissible ok =
      let ours = (bytes_eq_iff m.symbol symbol).1 ok.our_symbol in ground (arith, admit-accept ok)

  -- An order that does not is refused.
  pub handle_new_order-Refused : ¬ Admissible conn m v → Refused conn v (handle_new_order conn m v)
  unfolding handle_new_order admit
  handle_new_order-Refused never =
      if_cases P (not m.has_client_order_id) (λ _. unchanged [] _)
        λ id.
          if_cases P (not m.has_symbol || not (bytes_eq m.symbol symbol)) (λ _. unchanged cid _)
            λ sym'.
              if_cases P (not m.has_side) (λ _. unchanged cid _)
                λ side.
                  if_cases P (not m.has_price) (λ _. unchanged cid _)
                    λ price.
                      if_cases P (not m.has_qty || m.qty == 0) (λ _. unchanged cid _)
                        λ qty.
                          checked-Refused (lookup cid (table_of conn v.by_conn)) λ new room clear.
                            never (record {
                              has_id = ground arith;
                              has_symbol = ground arith;
                              our_symbol = (bytes_eq_iff m.symbol symbol).0 (ground arith);
                              has_side = ground arith;
                              has_price = ground arith;
                              has_qty = ground arith;
                              some_qty = ground arith;
                              new_id = new;
                              room = room;
                              no_cross = clear;
                            })
    where
      P : Step → Type 0
      P = Refused conn v

      cid : Bytes
      cid = m.client_order_id
