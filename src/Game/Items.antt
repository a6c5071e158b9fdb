-- ===== src/Game/Items.antt =====
-- internal/uow (`LoadList`, `Create`, `Update`) and internal/service/item_service.go, for the items of
-- one user: the rows of the user in TB_ITEM of the shard, and the field of the items in the cache. An
-- object in memory is known by its place in the slice of the store. A time is a number, what a TIMESTAMP
-- keeps of it: two times of which it keeps the same are one here.
pub mod Tracks
pub mod Keeps
pub mod Ready
use future_was.Base.{
  ℕ, zero, suc, ◌+◌, ◌-◌, ◌%◌, String, Bool, true, false, ◌||◌, not, Option, none, some, List, [],
  ◌∷◌, ◌++◌, map, length, get_elem?, set, if◌then◌else◌, ◌==◌, ltb, template,
}
use future_was.Base.Results.{Result, ok, err}

-- `model.Item`
pub record Item : Type 0 where
  pub idx : ℕ
  pub user_id : ℕ
  pub item_type : ℕ
  pub item_id : ℕ
  pub amount : ℕ
  pub insert_time : ℕ
  pub update_time : ℕ

-- The rows of the user, and the next number that the table gives.
pub record Table : Type 0 where
  pub rows : List Item
  pub next : ℕ

-- A queued write: `create i` inserts the object at the place `i`, `save i` updates its row.
pub data Queued : Type 0 where
  create save : ℕ → Queued

-- `UnitOfWork`: the slice at `EntityItems` in the store, once there is one, the queue, and the
-- places of the objects that are dirty.
pub record UnitOfWork : Type 0 where
  pub user_id : ℕ
  pub store : Option (List Item)
  pub db_ops : List Queued
  pub dirty : List ℕ

abbrev pub new_uow : ℕ → UnitOfWork
new_uow user_id = record { user_id = user_id; store = none; db_ops = []; dirty = [] }

-- What the cache and the database meet when a list is loaded.
pub record LoadFaults : Type 0 where
  pub get_fails : Bool
  pub find_error : Option String
  pub set_fails : Bool

-- What a service returns when it fails: an error with a code, or another one.
pub data Failure : Type 0 where
  coded : ℕ → Failure
  other : String → Failure

-- The unit of work and the cache in the course of a request.
pub record Context : Type 0 where
  pub uow : UnitOfWork
  pub cache : Option (List Item)

pub data Served (A : Type 0) : Type 0 where
  gives : Context → A → Served A
  fails : Context → Failure → Served A

abbrev pub cache_get : LoadFaults → Option (List Item) → Option (List Item)
cache_get f cache = if f.get_fails then none else cache

abbrev pub put_in_store : List Item → UnitOfWork → UnitOfWork
put_in_store list u = record u { store = some list }

-- `LoadList`: from the store, or else from the cache, or else from the database.
abbrev pub load_from :
    LoadFaults → Table → Option (List Item) → Option (List Item) → Context → Served (List Item)
load_from f t (some list) cached c = gives c list
load_from f t none (some list) c =
    if c.uow.user_id == 0
    then fails c (other "uow: userID is not set")
    else gives (record c { uow = put_in_store list c.uow }) list
load_from f t none none c =
    if c.uow.user_id == 0 then fails c (other "uow: userID is not set") else elim f.find_error [
      | some e ↦ fails c (other e)
      | none ↦
          gives
            (record {
              uow = put_in_store t.rows c.uow;
              cache = if f.set_fails then c.cache else some t.rows;
            })
            t.rows
    ]

unfoldable pub load_list : LoadFaults → Table → Context → Served (List Item)
load_list f t c = load_from f t c.uow.store (cache_get f c.cache) c

-- `Update`: the queue and the objects that are dirty.
abbrev pub queue_save : ℕ → UnitOfWork → UnitOfWork
queue_save i u = record u { db_ops = u.db_ops ++ save i ∷ []; dirty = i ∷ u.dirty }

abbrev pub store_append : Item → Option (List Item) → List Item
store_append m none = m ∷ []
store_append m (some list) = list ++ m ∷ []

abbrev pub store_length : Option (List Item) → ℕ
store_length none = 0
store_length (some list) = length list

-- `Create`: `storeModel`, the queue and the objects that are dirty.
abbrev pub create_item : Item → UnitOfWork → UnitOfWork
create_item m u = record u {
  store = some (store_append m u.store);
  db_ops = u.db_ops ++ create (store_length u.store) ∷ [];
  dirty = store_length u.store ∷ u.dirty;
}

-- `GetItem`: the place of the first item with the number.
abbrev pub shift_found : Option (ℕ × Item) → Option (ℕ × Item)
shift_found none = none
shift_found (some (i, x)) = some (suc i, x)

abbrev pub get_item : ℕ → List Item → Option (ℕ × Item)
get_item item_id [] = none
get_item item_id (x ∷ xs) =
    let rest = shift_found (get_item item_id xs) in
    if x.item_id == item_id then some (0, x) else rest

abbrev pub two_64 : ℕ
two_64 = 18446744073709551616

-- A change of an item through its pointer, and `Update`.
abbrev pub change_item : ℕ → Item → List Item → Context → Context
change_item i x items c = record c {
  uow = queue_save i (record c.uow { store = some (set items i x) });
}

-- `AddItem` of an item that the user does not have, by its type in the catalog.
abbrev pub add_new : ℕ → ℕ → ℕ → Option ℕ → Context → Served (Unit {0})
add_new now item_id amount none c = fails c (coded 4002)
add_new now item_id amount (some item_type) c =
    gives
      (record c {
        uow =
            create_item
              (record {
                idx = 0;
                user_id = c.uow.user_id;
                item_type = item_type;
                item_id = item_id;
                amount = amount;
                insert_time = now;
                update_time = now;
              })
              c.uow;
      })
      tt

-- `AddItem`, once the items are loaded; the catalog gives the type of an item.
abbrev pub add_to :
    (ℕ → Option ℕ) → ℕ → ℕ → ℕ → List Item → Option (ℕ × Item) → Context → Served (Unit {0})
add_to catalog now item_id amount items (some (i, x)) c =
    gives
      (change_item i (record x { amount = (x.amount + amount) % two_64; update_time = now }) items
        c)
      tt
add_to catalog now item_id amount items none c = add_new now item_id amount (catalog item_id) c

-- `ConsumeItem`, once the items are loaded.
abbrev pub consume_from : ℕ → ℕ → List Item → Option (ℕ × Item) → Context → Served (Unit {0})
consume_from now amount items none c = fails c (coded 3101)
consume_from now amount items (some (i, x)) c =
    if ltb x.amount amount
    then fails c (coded 3102)
    else gives (change_item i (record x { amount = x.amount - amount; update_time = now }) items c)
        tt

-- A call of a handler to the service, with what its loading meets.
pub data Call : Type 0 where
  get_items : LoadFaults → Call
  add_item consume_item : LoadFaults → ℕ → ℕ → Call

abbrev pub then_with : {A B : Type 0} → Served A → (A → Context → Served B) → Served B
then_with (gives c a) k = k a c
then_with (fails c e) k = fails c e

module _ (catalog : ℕ → Option ℕ) (now : ℕ) where
  unfoldable pub call : Table → Call → Context → Served (Unit {0})
  unfolding load_list
  call t (get_items f) c = then_with (load_list f t c) (λ items c'. gives c' tt)
  call t (add_item f item_id amount) c =
      then_with (load_list f t c)
        (λ items c'. add_to catalog now item_id amount items (get_item item_id items) c')
  call t (consume_item f item_id amount) c =
      then_with (load_list f t c)
        (λ items c'. consume_from now amount items (get_item item_id items) c')

  -- A handler: its calls, up to the first that fails.
  unfoldable pub handler : Table → List Call → Context → Served (Unit {0})
  unfolding call
  handler t [] c = gives c tt
  handler t (k ∷ ks) c = then_with (call t k c) (λ _ c'. handler t ks c')
