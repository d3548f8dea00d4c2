-- ===== src/Tests/Levels.antt =====
-- The theorems on price levels, at a level with two orders, and on the sorted sides.
use market_maker_ops.Prelude.{
  ℕ, zero, suc, ◌≡◌, refl, false, some, none, List, [], ◌∷◌, arith, replicate, length-replicate,
}
use market_maker_ops.Order.{buy, sell, Store, blank, update}
use market_maker_ops.PriceLevel.{PriceLevel, new_level, add_to_tail, remove}
use market_maker_ops.PriceLevel.Queue.{IsQueue, total}
use market_maker_ops.PriceLevel.AddToTail.{Appended, add_to_tail_lem}
use market_maker_ops.PriceLevel.Remove.{Removed, remove_lem}
use market_maker_ops.OrderBook.Levels.{Found, lower_bound, find_or_create}
use market_maker_ops.OrderBook.Levels.Search.{Placed, find_or_create_lem}
use market_maker_ops.OrderBook.Levels.Lookup.{
  has_price, find_or_create-none, FoundAt, lower_bound-has_price,
}

-- Orders for 5 and 7 in slots 1 and 2, linked, and one for 4 in slot 3.
abbrev store : Store
store =
    update
      (update (update (λ _. blank) 1 (record blank { quantity = 5; next = some 2 })) 2
        (record blank { quantity = 7; prev = some 1 }))
      3 (record blank { quantity = 4 })

abbrev level : PriceLevel
level = record { price = 100; total_quantity = 12; head = some 1; tail = some 2 }

level-IsQueue : IsQueue store level (1 ∷ 2 ∷ [])
unfolding total
level-IsQueue = record {
  head = refl;
  tail = refl;
  links = (refl, refl, (refl, refl, tt));
  distinct = (refl, (refl, tt));
  sum = refl;
}

add_to_tail_lem_example :
    (r : PriceLevel × Store) × (add_to_tail 3 level store ≡ some r)
    × Appended 3 (1 ∷ 2 ∷ []) level store r
add_to_tail_lem_example = add_to_tail_lem 3 level store (1 ∷ 2 ∷ []) level-IsQueue refl

remove_lem_example : Removed 2 (1 ∷ []) [] level store (remove 2 level store)
remove_lem_example = remove_lem 2 level store (1 ∷ []) [] level-IsQueue

-- A side with bids at 105, 103 and 100.
abbrev bids : List PriceLevel
bids = new_level 105 ∷ new_level 103 ∷ new_level 100 ∷ []

find_or_create_lem_example :
    (f : Found) × (find_or_create buy 104 bids ≡ some f) × Placed buy 104 bids f
find_or_create_lem_example = find_or_create_lem buy 104 bids (refl, (refl, tt)) (omega arith)

-- A side of many levels.
abbrev crowded : List PriceLevel
crowded = replicate 4096 (new_level 100)

replicate-has_price : (n : ℕ) → has_price 99 (replicate n (new_level 100)) ≡ false
replicate-has_price zero = refl
replicate-has_price (suc n) = replicate-has_price n

find_or_create-none_example : find_or_create sell 99 crowded ≡ none
find_or_create-none_example =
    find_or_create-none sell 99 crowded (omega (arith, length-replicate 4096 (new_level 100)))
      (replicate-has_price 4096)

lower_bound-has_price_example :
    (k : PriceLevel) × (later : List PriceLevel) × (earlier : List PriceLevel) × (lower_bound buy
        103 bids
      ≡ record { later = k ∷ later; earlier = earlier })
    × FoundAt buy 103 bids k later earlier
lower_bound-has_price_example = lower_bound-has_price buy 103 bids (refl, (refl, tt)) refl
