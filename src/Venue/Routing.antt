-- ===== src/Venue/Routing.antt =====
-- What `routeFill` of venue/venue.cpp does to the tables of orders and of client records.
use market_maker_ops.Prelude.{
  ℕ, ◌-◌, ◌≡◌, ◌⊎◌, inl, inr, refl, sym, subst, true, false, Option, none, some, [], ◌∷◌, arith,
  ltb, ◌==◌, ==_iff, Bool-cases, Option-cases, if◌then◌else◌, lookup, insert, lookup-insert_self,
  lookup-insert_ne, lookup-erase_self, lookup-erase_ne, nat_key, bytes_key, bytes_eq, Bytes,
}
use market_maker_ops.Venue.State.{
  ConnId, OrderState, filled, LiveOrder, ClientRecord, fill, Sent, Venue,
}
use market_maker_ops.Venue.Fills.{set_state, fill_left, fill_order, route_at, route_fill}
use market_maker_ops.Venue.Requests.{find_record}

abbrev pub mark : OrderState → Option ClientRecord → Option ClientRecord
mark state none = none
mark state (some r) = some (record r { state = state })

-- `set_state` changes the state of one record, and nothing else.
pub find_record-set_state :
    (state : OrderState) (conn : ConnId) (cid : Bytes) (v : Venue)
    → find_record conn cid (set_state state conn cid v) ≡ mark state (find_record conn cid v)
find_record-set_state state conn cid v = elim (Option-cases (lookup conn v.by_conn)) [
  | inl e ↦ ground (arith, e)
  | inr (t, e) ↦ elim (Option-cases (lookup cid t)) [
    | inl e' ↦ ground (arith, e, e')
    | inr (r, e') ↦
        let t' = insert cid (record r { state = state }) t in
        ground (
          arith,
          e,
          e',
          lookup-insert_self conn t' v.by_conn,
          lookup-insert_self cid (record r { state = state }) t,
        )
  ]
]

find_record-other_conn :
    (state : OrderState) (conn c : ConnId) (cid k : Bytes) (v : Venue)
    → (conn == c) ≡ false
    → find_record c k (set_state state conn cid v) ≡ find_record c k v
find_record-other_conn state conn c cid k v ne = elim (Option-cases (lookup conn v.by_conn)) [
  | inl e ↦ ground (arith, e)
  | inr (t, e) ↦ elim (Option-cases (lookup cid t)) [
    | inl e' ↦ ground (arith, e, e')
    | inr (r, e') ↦
        let t' = insert cid (record r { state = state }) t in
        ground (arith, e, e', lookup-insert_ne conn c t' v.by_conn ne)
  ]
]

find_record-other_id :
    (state : OrderState) (conn : ConnId) (cid k : Bytes) (v : Venue)
    → bytes_eq cid k ≡ false
    → find_record conn k (set_state state conn cid v) ≡ find_record conn k v
find_record-other_id state conn cid k v ne = elim (Option-cases (lookup conn v.by_conn)) [
  | inl e ↦ ground (arith, e)
  | inr (t, e) ↦ elim (Option-cases (lookup cid t)) [
    | inl e' ↦ ground (arith, e, e')
    | inr (r, e') ↦
        let r' = record r { state = state } in
        let t' = insert cid r' t in
        ground (arith, e, e', lookup-insert_self conn t' v.by_conn, lookup-insert_ne cid k r' t ne)
  ]
]

find_record-others :
    (state : OrderState) (conn c : ConnId) (cid k : Bytes) (v : Venue)
    → ((conn == c) ≡ false) ⊎ (bytes_eq cid k ≡ false)
    → find_record c k (set_state state conn cid v) ≡ find_record c k v
find_record-others state conn c cid k v (inl ne) = find_record-other_conn state conn c cid k v ne
find_record-others state conn c cid k v (inr ne) = elim (Bool-cases (conn == c)) [
  | inr other ↦ find_record-other_conn state conn c cid k v other
  | inl same ↦
      subst (λ x. find_record x k (set_state state conn cid v) ≡ find_record x k v)
        ((==_iff conn c).0 same) (find_record-other_id state conn cid k v ne)
]

-- What is left of an order's quantity.
abbrev pub left_of : LiveOrder → ℕ → ℕ
left_of lo qty = lo.remaining - qty

-- A fill of `qty` at the live order `lo`: one message to its owner, the order reduced or taken out
-- of the table, its client record marked as filled exactly when nothing is left, and all else kept.
pub record Routed (id : ℕ) (lo : LiveOrder) (price qty : ℕ) (v : Venue) (r : Sent × Venue)
    : Type 0 where
  pub message :
      r.0 ≡ (lo.owner, fill lo.exchange_id lo.client_order_id qty price (left_of lo qty)) ∷ []
  pub order :
      lookup id r.1.by_engine_id
      ≡ (if left_of lo qty == 0 then none else some (record lo { remaining = left_of lo qty }))
  pub other_orders :
      (j : ℕ) → (id == j) ≡ false → lookup j r.1.by_engine_id ≡ lookup j v.by_engine_id
  pub client : find_record lo.owner lo.client_order_id r.1 ≡ (
      if left_of lo qty == 0
      then mark filled (find_record lo.owner lo.client_order_id v)
      else find_record lo.owner lo.client_order_id v)
  pub other_clients :
      (c : ConnId) (k : Bytes)
      → ((lo.owner == c) ≡ false) ⊎ (bytes_eq lo.client_order_id k ≡ false)
      → find_record c k r.1 ≡ find_record c k v
  pub book : r.1.book ≡ v.book
  pub next_id : r.1.next_engine_id ≡ v.next_engine_id

pub set_state_keeps :
    (state : OrderState) (conn : ConnId) (cid : Bytes) (v : Venue)
    → ((set_state state conn cid v).book ≡ v.book)
      × ((set_state state conn cid v).next_engine_id ≡ v.next_engine_id)
      × ((set_state state conn cid v).by_engine_id ≡ v.by_engine_id)
set_state_keeps state conn cid v = elim (Option-cases (lookup conn v.by_conn)) [
  | inl e ↦ ground (arith, e)
  | inr (t, e) ↦ elim (Option-cases (lookup cid t)) [
    | inl e' ↦ ground (arith, e, e')
    | inr (r, e') ↦ ground (arith, e, e')
  ]
]

module _ (id : ℕ) (lo : LiveOrder) (price qty : ℕ) (v : Venue) where
  whole-Routed :
      (left_of lo qty == 0) ≡ true
      → Routed id lo price qty v (fill_left id lo price qty (left_of lo qty) v)
  unfolding fill_left
  whole-Routed done = rw done (record {
    message = refl;
    order = rw (done, lookup-erase_self id v.by_engine_id);
    other_orders = λ j ne. lookup-erase_ne id j v.by_engine_id ne;
    client = rw done (find_record-set_state filled lo.owner lo.client_order_id v);
    other_clients = λ c k ne. find_record-others filled lo.owner c lo.client_order_id k v ne;
    book = (set_state_keeps filled lo.owner lo.client_order_id v).0;
    next_id = (set_state_keeps filled lo.owner lo.client_order_id v).1;
  })

  part-Routed :
      (left_of lo qty == 0) ≡ false
      → Routed id lo price qty v (fill_left id lo price qty (left_of lo qty) v)
  unfolding fill_left
  part-Routed more = rw more (record {
    message = refl;
    order =
        rw (more, lookup-insert_self id (record lo { remaining = left_of lo qty }) v.by_engine_id);
    other_orders = λ j ne. lookup-insert_ne id j _ v.by_engine_id ne;
    client = rw more refl;
    other_clients = λ c k ne. refl;
    book = refl;
    next_id = refl;
  })

  left_lem : (if ltb qty lo.remaining then lo.remaining - qty else 0) ≡ left_of lo qty
  left_lem = ground arith

  fill_order-Routed : Routed id lo price qty v (fill_order id lo price qty v)
  unfolding fill_order
  fill_order-Routed =
      subst (λ (n : ℕ). Routed id lo price qty v (fill_left id lo price qty n v)) (sym left_lem)
        (elim (Bool-cases (left_of lo qty == 0)) [
          | inl done ↦ whole-Routed done
          | inr more ↦ part-Routed more
        ])

-- `routeFill` of an id that is in the table.
pub route_fill-Routed :
    (id price qty : ℕ) (lo : LiveOrder) (v : Venue)
    → lookup id v.by_engine_id ≡ some lo
    → Routed id lo price qty v (route_fill id price qty v)
unfolding route_fill route_at
route_fill-Routed id price qty lo v e =
    subst (λ (o : Option LiveOrder). Routed id lo price qty v (route_at id o price qty v)) (sym e)
      (fill_order-Routed id lo price qty v)
