-- ===== src/Game/Ledger.antt =====
-- What internal/service/item_service.go promises: a ledger of amounts by item, with no unit of work.
pub mod Serves
pub mod Handler
pub mod Refines
use future_was.Base.{ℕ, ◌+◌, ◌-◌, ◌%◌, Option, none, some, List, [], ◌∷◌, ◌==◌, ltb, if◌then◌else◌}
use future_was.Game.Items.{Item, Call, get_items, add_item, consume_item, two_64}

abbrev pub Ledger : Type 0
Ledger = ℕ → Option ℕ

-- The amount of an item among rows.
unfoldable pub amount_of : List Item → Ledger
amount_of [] item_id = none
amount_of (x ∷ xs) item_id =
    let rest = amount_of xs item_id in if x.item_id == item_id then some x.amount else rest

abbrev pub put_amount : ℕ → ℕ → Ledger → Ledger
put_amount item_id amount ledger k = if item_id == k then some amount else ledger k

-- A ledger, or the code of a refusal.
pub data Promise : Type 0 where
  allowed : Ledger → Promise
  refused : ℕ → Promise

abbrev pub add_amount : Option ℕ → ℕ → ℕ → Ledger → Option ℕ → Promise
add_amount known item_id amount ledger (some a) =
    allowed (put_amount item_id ((a + amount) % two_64) ledger)
add_amount (some item_type) item_id amount ledger none = allowed (put_amount item_id amount ledger)
add_amount none item_id amount ledger none = refused 4002

abbrev pub consume_amount : ℕ → ℕ → Ledger → Option ℕ → Promise
consume_amount item_id amount ledger none = refused 3101
consume_amount item_id amount ledger (some a) =
    if ltb a amount then refused 3102 else allowed (put_amount item_id (a - amount) ledger)

module _ (catalog : ℕ → Option ℕ) where
  abbrev pub promise : Call → Ledger → Promise
  promise (get_items f) ledger = allowed ledger
  promise (add_item f item_id amount) ledger =
      add_amount (catalog item_id) item_id amount ledger (ledger item_id)
  promise (consume_item f item_id amount) ledger =
      consume_amount item_id amount ledger (ledger item_id)

  abbrev pub next_promise : Promise → (Ledger → Promise) → Promise
  next_promise (allowed ledger) k = k ledger
  next_promise (refused code) k = refused code

  unfoldable pub promises : List Call → Ledger → Promise
  promises [] ledger = allowed ledger
  promises (k ∷ ks) ledger = next_promise (promise k ledger) (λ l. promises ks l)
