-- ===== src/Order.antt =====
-- include/types.h and include/order.h of engine/order-matching-engine. An order lives in a slot of
-- the pool; a pointer to it is the slot's number, and the null pointer is `none`. Integer fields
-- are plain numbers, and every write that can wrap says so.
use market_maker_ops.Prelude.{ℕ, ◌^◌, Option, none, ◌==◌, if◌then◌else◌}

pub data Side : Type 0 where
  buy sell : Side

pub record Trade : Type 0 where
  pub buy_order_id : ℕ
  pub sell_order_id : ℕ
  pub price : ℕ
  pub quantity : ℕ

-- A slot of the pool's array.
abbrev pub Slot : Type 0
Slot = ℕ

-- An `Order*`.
abbrev pub Ptr : Type 0
Ptr = Option Slot

pub record Order : Type 0 where
  pub order_id : ℕ
  pub price : ℕ
  pub quantity : ℕ
  pub sequence : ℕ
  pub participant_id : ℕ
  pub side : Side
  pub next : Ptr
  pub prev : Ptr

-- `Order::init`: the two links are not touched.
abbrev pub init : Order → ℕ → ℕ → ℕ → ℕ → Side → ℕ → Order
init o id price quantity sequence side participant = record o {
  order_id = id;
  price = price;
  quantity = quantity;
  sequence = sequence;
  side = side;
  participant_id = participant;
}

-- A value-initialised `Order`, as `make_unique<Order[]>` makes it.
abbrev pub blank : Order
blank = record {
  order_id = 0;
  price = 0;
  quantity = 0;
  sequence = 0;
  participant_id = 0;
  side = buy;
  next = none;
  prev = none;
}

-- The memory of the orders.
abbrev pub Store : Type 0
Store = Slot → Order

abbrev pub update : Store → Slot → Order → Store
update m p o q = if q == p then o else m q

abbrev pub set_next : Store → Slot → Ptr → Store
set_next m p n = update m p (record (m p) { next = n })

abbrev pub set_prev : Store → Slot → Ptr → Store
set_prev m p n = update m p (record (m p) { prev = n })

abbrev pub set_quantity : Store → Slot → ℕ → Store
set_quantity m p n = update m p (record (m p) { quantity = n })

-- One more than the largest `uint32_t` and the largest `uint64_t`.
abbrev pub u32_mod : ℕ
u32_mod = 2 ^ 32

abbrev pub u64_mod : ℕ
u64_mod = 2 ^ 64
