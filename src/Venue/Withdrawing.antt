-- ===== src/Venue/Withdrawing.antt =====
-- `handleCancel` of venue/venue.cpp as a whole, at a venue whose book and tables agree.
use market_maker_ops.Prelude.{
  ℕ, ◌≡◌, ◌≢◌, ◌⊎◌, refl, sym, subst, ap, ◌∙◌, true, Bool-cases, ==_iff, ◌==◌, Option, Option-cases,
  none, some, List, [], ◌∷◌, inl, inr, arith, lookup, erase, lookup-erase_self, nat_key, bytes_key,
  Bytes, codes,
}
use market_maker_ops.Order.{Side, Slot, Store}
use market_maker_ops.PriceLevel.Links.{◌∈◌}
use market_maker_ops.OrderBook.{OrderBook}
use market_maker_ops.OrderBook.Levels.{opposite}
use market_maker_ops.OrderBook.Match.Spec.{slots, resting}
use market_maker_ops.OrderBook.WellFormed.{in_one}
use market_maker_ops.Protocol.Inbound.{InboundMessage}
use market_maker_ops.Venue.State
use market_maker_ops.Venue.State.{
  ConnId, OrderState, filled, cancelled, LiveOrder, ClientRecord, cancel_ack, cancel_reject, Sent,
  Venue,
}
use market_maker_ops.Venue.Requests.{find_record, handle_cancel}
use market_maker_ops.Venue.Routing.{mark, find_record-set_state, set_state_keeps}
use market_maker_ops.Venue.Cancelling.{
  refusal, handle_cancel-refusal, after_cancel, cancel_at-resting,
}
use market_maker_ops.Venue.Mirror.{Table, Mirrored}
use market_maker_ops.Venue.Joining.{IsConsistent}
use market_maker_ops.Venue.Dropping.{cancel_order-IsConsistent}

Mirrored-mem :
    (m : Store) (t : Table) (side : Side) (p : Slot) (ps : List Slot)
    → Mirrored t side (resting m ps)
    → p ∈ ps
    → (lo : LiveOrder) × (lookup (m p).order_id t ≡ some lo)
Mirrored-mem m t side p [] k i = absurd (ground arith)
Mirrored-mem m t side p (q ∷ ps) k i = elim (Bool-cases (p == q)) [
  | inl e ↦
      subst (λ x. (lo : LiveOrder) × (lookup (m x).order_id t ≡ some lo)) (sym ((==_iff p q).0 e))
        (k.0.0, k.0.1)
  | inr ne ↦ Mirrored-mem m t side p ps k.2 (ground arith)
]

-- An id that the table does not have is none of the book's.
IsConsistent-none :
    (side : Side) (b : OrderBook) (t : Table) (id : ℕ)
    → IsConsistent side b t
    → lookup id t ≡ none
    → lookup id b.order_index ≡ none
IsConsistent-none side b t id is gone = elim (Option-cases (lookup id b.order_index)) [
  | inl e ↦ e
  | inr (p, e) ↦
      let (i, at_id) = (is.book.index id p).0 e in
      let there : (lo : LiveOrder) × (lookup (b.pool.orders p).order_id t ≡ some lo) =
        elim (in_one p (slots is.own) (slots is.opp) i) [
          | inl j ↦ Mirrored-mem b.pool.orders t side p (slots is.own) is.own_known j
          | inr j ↦ Mirrored-mem b.pool.orders t (opposite side) p (slots is.opp) is.opp_known j
        ] in
      absurd (cc (sym there.1, ap (λ (x : ℕ). lookup x t) at_id, gone))
]

-- The message names an order of the connection that is still resting.
pub record Cancellable (conn : ConnId) (m : InboundMessage) (v : Venue) (r : ClientRecord)
    : Type 0 where
  pub named : m.has_client_order_id ≡ true
  pub found : find_record conn m.client_order_id v ≡ some r
  pub resting : r.state ≡ State.resting

-- What the cancel of such an order leaves: its record is marked, and neither the table nor the book has
-- the order.
pub record Gone (conn : ConnId) (m : InboundMessage) (r : ClientRecord) (sent : Sent) (v' : Venue)
    : Type 0 where
  pub answer : sent ≡ (conn, cancel_ack m.client_order_id r.exchange_id) ∷ []
  pub marked : find_record conn m.client_order_id v' ≡ some (record r { state = cancelled })
  pub off_table : lookup r.engine_id v'.by_engine_id ≡ none
  pub off_book : lookup r.engine_id v'.book.order_index ≡ none

-- What any other cancel leaves.
pub record Denied (conn : ConnId) (m : InboundMessage) (v : Venue) (sent : Sent) (v' : Venue)
    : Type 0 where
  pub never : (r : ClientRecord) → ¬ Cancellable conn m v r
  pub answer : (cid : Bytes) × (reason : Bytes) × (sent ≡ (conn, cancel_reject cid reason) ∷ [])
  pub same : v' ≡ v

refusal_state :
    (r : ClientRecord) (s : OrderState)
    → r.state ≡ s
    → (r.state ≡ State.resting) ⊎ ((reason : Bytes) × (refusal (some r) ≡ some reason))
refusal_state r State.resting e = inl e
refusal_state r filled e = inr (codes "already_filled", rw e refl)
refusal_state r cancelled e = inr (codes "already_cancelled", rw e refl)

refusal_cases :
    (o : Option ClientRecord)
    → ((r : ClientRecord) × (o ≡ some r) × (r.state ≡ State.resting))
      ⊎ ((reason : Bytes) × (refusal o ≡ some reason))
refusal_cases none = inr (codes "not_found", refl)
refusal_cases (some r) = elim (refusal_state r r.state refl) [
  | inl e ↦ inl (r, refl, e)
  | inr (reason, e) ↦ inr (reason, e)
]

refusal_resting :
    (o : Option ClientRecord) (r : ClientRecord) (reason : Bytes)
    → refusal o ≡ some reason
    → o ≡ some r
    → r.state ≢ State.resting
refusal_resting o r reason e found k =
    let kept : refusal (some r) ≡ none = rw k refl in cc (sym e ∙ ap refusal found ∙ kept)

denied :
    (side : Side) (conn : ConnId) (m : InboundMessage) (v : Venue) (cid reason : Bytes)
    → IsConsistent side v.book v.by_engine_id
    → ((r : ClientRecord) → ¬ Cancellable conn m v r)
    → handle_cancel conn m v ≡ some ((conn, cancel_reject cid reason) ∷ [], v)
    → (sent : Sent) × (v' : Venue) × (handle_cancel conn m v ≡ some (sent, v'))
      × IsConsistent side v'.book v'.by_engine_id
      × (((r : ClientRecord) × Cancellable conn m v r × Gone conn m r sent v')
          ⊎ Denied conn m v sent v')
denied side conn m v cid reason is never e = (
  (conn, cancel_reject cid reason) ∷ [],
  v,
  e,
  is,
  inr (record { never = never; answer = (cid, reason, refl); same = refl }),
)

-- The venue behind the cancel of an order that rests.
module _ (side : Side) (conn : ConnId) (m : InboundMessage) (v : Venue) (r : ClientRecord)
    (ok : Cancellable conn m v r) (b : OrderBook)
    (is : IsConsistent side b (erase r.engine_id v.by_engine_id)) where
  abbrev cid : Bytes
  cid = m.client_order_id

  abbrev taken_out : Venue
  taken_out = record v { book = b; by_engine_id = erase r.engine_id v.by_engine_id }

  abbrev after : Venue
  after = after_cancel conn cid r b v

  keeps :
      (after.book ≡ b)
      × (after.next_engine_id ≡ v.next_engine_id)
      × (after.by_engine_id ≡ erase r.engine_id v.by_engine_id)
  keeps = set_state_keeps cancelled conn cid taken_out

  after-IsConsistent : IsConsistent side after.book after.by_engine_id
  after-IsConsistent =
      subst (λ t. IsConsistent side after.book t) (sym keeps.2)
        (subst (λ x. IsConsistent side x (erase r.engine_id v.by_engine_id)) (sym keeps.0) is)

  after-Gone : Gone conn m r ((conn, cancel_ack cid r.exchange_id) ∷ []) after
  after-Gone =
      let off : lookup r.engine_id after.by_engine_id ≡ none =
        ap (λ t. lookup r.engine_id t) keeps.2 ∙ lookup-erase_self r.engine_id v.by_engine_id in
      record {
        answer = refl;
        marked = find_record-set_state cancelled conn cid taken_out ∙ ap (mark cancelled) ok.found;
        off_table = off;
        off_book =
            IsConsistent-none side after.book after.by_engine_id r.engine_id after-IsConsistent off;
      }

-- Where the book is well-formed and the table of live orders has every order that rests in it, a cancel
-- ends without a fault and leaves the book and the table so. If the message names an order of the
-- connection that is resting, the answer is one ack, its record is marked as cancelled and neither the
-- table nor the book's index has the order; otherwise the answer is one reject, and nothing changes.
pub handle_cancel_lem :
    (side : Side) (conn : ConnId) (m : InboundMessage) (v : Venue)
    → IsConsistent side v.book v.by_engine_id
    → (sent : Sent) × (v' : Venue) × (handle_cancel conn m v ≡ some (sent, v'))
      × IsConsistent side v'.book v'.by_engine_id
      × (((r : ClientRecord) × Cancellable conn m v r × Gone conn m r sent v')
          ⊎ Denied conn m v sent v')
handle_cancel_lem side conn m v is = elim (Bool-cases m.has_client_order_id) [
  | inr unnamed ↦
      denied side conn m v [] (codes "not_found") is (λ r ok. cc (sym unnamed ∙ ok.named))
        (unfold handle_cancel in rw unnamed refl)
  | inl named ↦ elim (refusal_cases (find_record conn m.client_order_id v)) [
    | inr (reason, e) ↦
        denied side conn m v m.client_order_id reason is
          (λ r ok.
            refusal_resting (find_record conn m.client_order_id v) r reason e ok.found ok.resting)
          (handle_cancel-refusal conn m v reason named e)
    | inl (r, found, state) ↦
        let ok : Cancellable conn m v r = record {
          named = named;
          found = found;
          resting = state;
        } in
        let (b, k, is') = cancel_order-IsConsistent side r.engine_id v.book v.by_engine_id is in
        (
          (conn, cancel_ack m.client_order_id r.exchange_id) ∷ [],
          after side conn m v r ok b is',
          unfold handle_cancel in
              rw (named, found) (cancel_at-resting conn m.client_order_id r b v state k),
          after-IsConsistent side conn m v r ok b is',
          inl (r, ok, after-Gone side conn m v r ok b is'),
        )
  ]
]
