-- ===== src/PriceLevel.antt =====
-- include/price_level.h and src/price_level.cpp of engine/order-matching-engine: a queue of orders,
-- linked through the orders themselves. A method takes the level and the memory of the orders and
-- returns both; `none` is a write through a null pointer.
pub mod Links
pub mod Queue
pub mod AddToTail
pub mod Remove
pub mod Middle
use market_maker_ops.Prelude.{
  ℕ, ◌+◌, ◌-◌, ◌%◌, Option, none, some, Bool, true, false, if◌then◌else◌,
}
use market_maker_ops.Order.{Slot, Ptr, Store, set_next, set_prev, u32_mod}

pub record PriceLevel : Type 0 where
  pub price : ℕ
  pub total_quantity : ℕ
  pub head : Ptr
  pub tail : Ptr

-- `PriceLevel(price)`: the other members are value-initialised.
abbrev pub new_level : ℕ → PriceLevel
new_level price = record { price = price; total_quantity = 0; head = none; tail = none }

abbrev pub is_null : Ptr → Bool
is_null none = true
is_null (some _) = false

abbrev pub is_empty : PriceLevel → Bool
is_empty pl = is_null pl.head

abbrev pub front : PriceLevel → Ptr
front pl = pl.head

-- `uint32_t` addition and subtraction.
abbrev pub add32 : ℕ → ℕ → ℕ
add32 a b = (a + b) % u32_mod

abbrev pub sub32 : ℕ → ℕ → ℕ
sub32 a b = (a + u32_mod - b % u32_mod) % u32_mod

append_to : Slot → Ptr → PriceLevel → Store → Option (PriceLevel × Store)
append_to o none pl m = none
append_to o (some t) pl m = some (record pl { tail = some o }, set_next m t (some o))

enlarge : Slot → PriceLevel × Store → PriceLevel × Store
enlarge o (pl, m) = (record pl { total_quantity = add32 pl.total_quantity (m o).quantity }, m)

unfoldable pub add_to_tail : Slot → PriceLevel → Store → Option (PriceLevel × Store)
unfolding append_to enlarge
add_to_tail o pl m =
    let linked : Store = set_prev (set_next m o none) o pl.tail in
    if is_empty pl
    then some (enlarge o (record pl { head = some o; tail = some o }, linked))
    else (elim (append_to o pl.tail pl linked) [ none ↦ none | some r ↦ some (enlarge o r) ])

unlink_prev : Slot → Ptr → PriceLevel × Store → PriceLevel × Store
unlink_prev o (some q) (pl, m) = (pl, set_next m q (m o).next)
unlink_prev o none (pl, m) = (record pl { head = (m o).next }, m)

unlink_next : Slot → Ptr → PriceLevel × Store → PriceLevel × Store
unlink_next o (some q) (pl, m) = (pl, set_prev m q (m o).prev)
unlink_next o none (pl, m) = (record pl { tail = (m o).prev }, m)

detach : Slot → PriceLevel × Store → PriceLevel × Store
detach o (pl, m) = (
  record pl { total_quantity = sub32 pl.total_quantity (m o).quantity },
  set_prev (set_next m o none) o none,
)

unfoldable pub remove : Slot → PriceLevel → Store → PriceLevel × Store
unfolding unlink_prev unlink_next detach
remove o pl m =
    let (pl1, m1) = unlink_prev o (m o).prev (pl, m) in
    let (pl2, m2) = unlink_next o (m1 o).next (pl1, m1) in detach o (pl2, m2)
