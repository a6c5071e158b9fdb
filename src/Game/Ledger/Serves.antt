-- ===== src/Game/Ledger/Serves.antt =====
-- The service against the ledger, in the course of a request.
use future_was.Base.{
  ℕ, ◌+◌, ◌-◌, ◌%◌, false, Option, none, some, List, [], ◌∷◌, ◌++◌, set, ◌==◌, ltb, if◌then◌else◌,
  ◌≡◌, refl, sym, ◌∙◌, arith, Bool-cases, Option-cases, inl, inr,
}
use future_was.Game.Items.{
  Item, Table, LoadFaults, coded, Context, Served, gives, fails, get_item, load_from, add_new,
  add_to, consume_from, change_item, put_in_store, two_64,
}
use future_was.Game.Items.Ready.{
  get_item-cons, get_item-eq-some, change-IsReady, create-IsReady, IsReady, IsCoherent,
}
use future_was.Game.Ledger.{
  Ledger, amount_of, put_amount, Promise, allowed, refused, add_amount, consume_amount,
}

amount_of-absent :
    (item_id : ℕ) (items : List Item)
    → get_item item_id items ≡ none
    → amount_of items item_id ≡ none
unfolding amount_of
amount_of-absent item_id [] e = refl
amount_of-absent item_id (y ∷ ys) e = elim (Bool-cases (y.item_id == item_id)) [
  | inl here ↦ absurd (let stop = rw here at e in cc)
  | inr later ↦ rw later (elim (Option-cases (get_item item_id ys)) [
    | inl absent ↦ amount_of-absent item_id ys absent
    | inr (p, found) ↦ absurd (let stop = rw (later, found) at e in cc)
  ])
]

-- The item that is found has the number and the amount.
amount_of-found :
    (item_id : ℕ) (items : List Item) (i : ℕ) (x : Item)
    → get_item item_id items ≡ some (i, x)
    → (amount_of items item_id ≡ some x.amount) × (x.item_id ≡ item_id)
unfolding amount_of
amount_of-found item_id [] i x e = cc
amount_of-found item_id (y ∷ ys) i x e = elim (get_item-cons item_id y ys i x e) [
  | inl (same, first, object) ↦ ground arith
  | inr (j, place, apart, found) ↦ rw apart (amount_of-found item_id ys j x found)
]

-- A change of the item that is found changes its amount alone.
amount_of-set :
    (item_id : ℕ) (items : List Item) (i : ℕ) (x x' : Item) (k : ℕ)
    → get_item item_id items ≡ some (i, x)
    → x'.item_id ≡ item_id
    → amount_of (set items i x') k ≡ put_amount item_id x'.amount (amount_of items) k
unfolding amount_of
amount_of-set item_id [] i x x' k e same = cc
amount_of-set item_id (y ∷ ys) i x x' k e same = elim (get_item-cons item_id y ys i x e) [
  | inl (here, first, object) ↦ rw first (ground arith)
  | inr (j, place, apart, found) ↦
      rw place (ground (arith, amount_of-set item_id ys j x x' k found same))
]

amount_of-snoc :
    (item_id : ℕ) (items : List Item) (m : Item) (k : ℕ)
    → get_item item_id items ≡ none
    → m.item_id ≡ item_id
    → amount_of (items ++ m ∷ []) k ≡ put_amount item_id m.amount (amount_of items) k
unfolding amount_of
amount_of-snoc item_id [] m k e same = ground arith
amount_of-snoc item_id (y ∷ ys) m k e same = elim (Bool-cases (y.item_id == item_id)) [
  | inl here ↦ absurd (let stop = rw here at e in cc)
  | inr later ↦ elim (Option-cases (get_item item_id ys)) [
    | inl absent ↦ ground (arith, amount_of-snoc item_id ys m k absent same)
    | inr (p, found) ↦ absurd (let stop = rw (later, found) at e in cc)
  ]
]

-- The amounts that the request sees: those of its slice, or else those of the rows.
abbrev pub view : Table → Option (List Item) → List Item
view t none = t.rows
view t (some objects) = objects

abbrev pub Agrees : List Item → Ledger → Type 0
Agrees items ledger = (k : ℕ) → amount_of items k ≡ ledger k

-- How a call ends, as it was promised.
abbrev pub IsKept : Table → Promise → Served (Unit {0}) → Type 0
IsKept t (allowed ledger) (gives c _) = IsReady t c × Agrees (view t c.uow.store) ledger
IsKept t (allowed ledger) (fails c e) = ⊥
IsKept t (refused code) (gives c _) = ⊥
IsKept t (refused code) (fails c e) = IsCoherent c.cache t × (e ≡ coded code)

put-Agrees :
    (item_id amount : ℕ) (items items' : List Item) (ledger : Ledger)
    → ((k : ℕ) → amount_of items' k ≡ put_amount item_id amount (amount_of items) k)
    → Agrees items ledger
    → Agrees items' (put_amount item_id amount ledger)
put-Agrees item_id amount items items' ledger put h k = ground (arith, put k, h k)

change-IsKept :
    (t : Table) (item_id i : ℕ) (x x' : Item) (items : List Item) (c : Context) (ledger : Ledger)
    → get_item item_id items ≡ some (i, x)
    → x'.item_id ≡ x.item_id
    → x'.idx ≡ x.idx
    → c.uow.store ≡ some items
    → IsReady t c
    → Agrees items ledger
    → IsKept t (allowed (put_amount item_id x'.amount ledger)) (gives (change_item i x' items c) tt)
change-IsKept t item_id i x x' items c ledger found same key stored ready h =
    let (amount, number) = amount_of-found item_id items i x found in
    (
      change-IsReady t i x x' items c (get_item-eq-some item_id items i x found) key stored ready,
      put-Agrees item_id x'.amount items (set items i x') ledger
          (λ k. amount_of-set item_id items i x x' k found (same ∙ number)) h,
    )

-- What the ledger has of the item that is found, or not found.
ledger-found :
    (item_id : ℕ) (items : List Item) (i : ℕ) (x : Item) (ledger : Ledger)
    → get_item item_id items ≡ some (i, x)
    → Agrees items ledger
    → ledger item_id ≡ some x.amount
ledger-found item_id items i x ledger found h =
    sym (h item_id) ∙ (amount_of-found item_id items i x found).0

ledger-absent :
    (item_id : ℕ) (items : List Item) (ledger : Ledger)
    → get_item item_id items ≡ none
    → Agrees items ledger
    → ledger item_id ≡ none
ledger-absent item_id items ledger absent h =
    sym (h item_id) ∙ amount_of-absent item_id items absent

pub add_to-IsKept :
    (catalog : ℕ → Option ℕ) (now item_id amount : ℕ) (t : Table) (items : List Item)
    (o : Option (ℕ × Item)) (c : Context) (ledger : Ledger)
    → get_item item_id items ≡ o
    → c.uow.store ≡ some items
    → IsReady t c
    → Agrees items ledger
    → IsKept t
        (add_amount (catalog item_id) item_id amount ledger (ledger item_id))
        (add_to catalog now item_id amount items o c)
add_to-IsKept catalog now item_id amount t items (some (i, x)) c ledger found stored ready h =
    rw (ledger-found item_id items i x ledger found h) (
      change-IsKept t item_id i x
        (record x { amount = (x.amount + amount) % two_64; update_time = now }) items c ledger found
        refl refl stored ready h)
add_to-IsKept catalog now item_id amount t items none c ledger found stored ready h =
    rw (ledger-absent item_id items ledger found h) (new (catalog item_id))
  where
    new :
        (known : Option ℕ)
        → IsKept t
            (add_amount known item_id amount ledger none)
            (add_new now item_id amount known c)
    new none = (ready.0, refl)
    new (some item_type) = (
      create-IsReady t _ items c refl stored ready,
      rw stored (
          put-Agrees item_id amount items _ ledger
            (λ k. amount_of-snoc item_id items _ k found refl) h),
    )

pub consume_from-IsKept :
    (now item_id amount : ℕ) (t : Table) (items : List Item) (o : Option (ℕ × Item)) (c : Context)
    (ledger : Ledger)
    → get_item item_id items ≡ o
    → c.uow.store ≡ some items
    → IsReady t c
    → Agrees items ledger
    → IsKept t
        (consume_amount item_id amount ledger (ledger item_id))
        (consume_from now amount items o c)
consume_from-IsKept now item_id amount t items none c ledger found stored ready h =
    rw (ledger-absent item_id items ledger found h) (ready.0, refl)
consume_from-IsKept now item_id amount t items (some (i, x)) c ledger found stored ready h =
    rw (ledger-found item_id items i x ledger found h) (elim (Bool-cases (ltb x.amount amount)) [
      | inl few ↦ rw few (ready.0, refl)
      | inr enough ↦ rw enough (
          change-IsKept t item_id i x (record x { amount = x.amount - amount; update_time = now })
            items c ledger found refl refl stored ready h)
    ])

-- A load that the database answers gives the items that the request sees.
pub load_from-gives :
    (f : LoadFaults) (t : Table) (store cached : Option (List Item)) (c : Context)
    → f.find_error ≡ none
    → (c.uow.user_id == 0) ≡ false
    → IsCoherent cached t
    → (c' : Context) × (items : List Item) × (load_from f t store cached c ≡ gives c' items)
      × (items ≡ view t store)
load_from-gives f t (some list) cached c fine user k = (c, list, refl, refl)
load_from-gives f t none (some list) c fine user k =
    (record c { uow = put_in_store list c.uow }, list, rw user refl, k)
load_from-gives f t none none c fine user k = (
  record { uow = put_in_store t.rows c.uow; cache = if f.set_fails then c.cache else some t.rows },
  t.rows,
  rw (user, fine) refl,
  refl,
)
