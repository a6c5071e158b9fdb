-- ===== src/Game/Items/Ready.antt =====
-- The unit of work of a user in the course of a request: its store, its queue and the cache against
-- the table.
use future_was.Base.{
  ℕ, suc, ◌+◌, ◌-◌, ◌%◌, false, Option, none, some, List, [], ◌∷◌, length, get_elem?, ◌==◌, ltb,
  ◌≡◌, refl, sym, ap, arith, Bool-cases, Option-cases, inl, inr, if_cases, ◌⊎◌, subst,
}
use future_was.Game.Items.{
  Item, Table, Queued, LoadFaults, Context, Served, gives, fails, load_from, load_list, cache_get,
  create_item, change_item, get_item, add_new, add_to, consume_from, Call, get_items, add_item,
  consume_item, call, handler, then_with, two_64,
}
use future_was.Game.Items.Tracks.{Tracks, Aligned-refl, is_saved, extra, count_from}
use future_was.Game.Items.Keeps.{save-Tracks, create-Tracks}

-- What the cache has, if it has anything, are the rows.
abbrev pub IsCoherent : Option (List Item) → Table → Type 0
IsCoherent none t = Unit
IsCoherent (some list) t = list ≡ t.rows

abbrev pub IsHeld : Option (List Item) → List Queued → Table → Type 0
IsHeld none qs t = qs ≡ []
IsHeld (some objects) qs t = Tracks qs t.rows objects

abbrev pub IsReady : Table → Context → Type 0
IsReady t c =
    IsCoherent c.cache t × IsHeld c.uow.store c.uow.db_ops t × ((c.uow.user_id == 0) ≡ false)

-- A property of the context, whichever way a call ends.
abbrev pub Ends : {A : Type 0} → (Context → Type 0) → Served A → Type 0
Ends P (gives c a) = P c
Ends P (fails c e) = P c

extra-same : (rows : List Item) → extra rows rows ≡ 0
extra-same [] = refl
extra-same (r ∷ rows) = extra-same rows

-- A slice that was just loaded.
loaded-Tracks : (rows list : List Item) → list ≡ rows → Tracks [] rows list
loaded-Tracks rows list e = rw e (record {
  aligned = Aligned-refl (is_saved []) rows;
  to_create = ap (count_from (length rows)) (sym (extra-same rows));
  within = tt;
})

-- The item that is found is the first, or one among the others.
pub get_item-cons :
    (item_id : ℕ) (y : Item) (ys : List Item) (i : ℕ) (x : Item)
    → get_item item_id (y ∷ ys) ≡ some (i, x)
    → ((y.item_id ≡ item_id) × (i ≡ 0) × (x ≡ y))
      ⊎ ((j : ℕ) × (i ≡ suc j)
          × ((y.item_id == item_id) ≡ false)
          × (get_item item_id ys ≡ some (j, x)))
get_item-cons item_id y ys i x e = elim (Bool-cases (y.item_id == item_id)) [
  | inl here ↦ inl (ground arith, ground arith, ground arith)
  | inr later ↦ elim (Option-cases (get_item item_id ys)) [
    | inl absent ↦ absurd (let stop = rw (later, absent) at e in cc)
    | inr ((j, z), found) ↦
        let next : ◌≡◌ {A = Option (ℕ × Item)} (some (suc j, z)) (some (i, x)) =
          rw (later, found) at e in
        let object : z ≡ x = cc in
        inr (j, ground arith, later, subst (λ o. get_item item_id ys ≡ some (j, o)) object found)
  ]
]

pub get_item-eq-some :
    (item_id : ℕ) (items : List Item) (i : ℕ) (x : Item)
    → get_item item_id items ≡ some (i, x)
    → get_elem? items i ≡ some x
get_item-eq-some item_id [] i x e = cc
get_item-eq-some item_id (y ∷ ys) i x e = elim (get_item-cons item_id y ys i x e) [
  | inl (same, first, object) ↦ rw (first, object) refl
  | inr (j, place, apart, found) ↦ rw place (get_item-eq-some item_id ys j x found)
]

-- A load: what it gives is the slice of the store.
abbrev pub IsLoaded : Table → Served (List Item) → Type 0
IsLoaded t (gives c items) = IsReady t c × (c.uow.store ≡ some items)
IsLoaded t (fails c e) = IsReady t c

load_from-IsLoaded :
    (f : LoadFaults) (t : Table) (store cached : Option (List Item)) (c : Context)
    → c.uow.store ≡ store
    → IsCoherent cached t
    → IsReady t c
    → IsLoaded t (load_from f t store cached c)
load_from-IsLoaded f t (some list) cached c e k h = (h, e)
load_from-IsLoaded f t none (some list) c e k h =
    let nothing : c.uow.db_ops ≡ [] = subst (λ o. IsHeld o c.uow.db_ops t) e h.1 in
    if_cases (IsLoaded t) (c.uow.user_id == 0) (λ zero. h)
      (λ user. ((h.0, rw nothing (loaded-Tracks t.rows list k), h.2), refl))
load_from-IsLoaded f t none none c e k h =
    let nothing : c.uow.db_ops ≡ [] = subst (λ o. IsHeld o c.uow.db_ops t) e h.1 in
    if_cases (IsLoaded t) (c.uow.user_id == 0) (λ zero. h)
      (λ user. elim (Option-cases f.find_error) [
        | inl fine ↦ rw fine (
          (
            if_cases (λ o. IsCoherent o t) f.set_fails (λ lost. h.0) (λ set. refl),
            rw nothing (loaded-Tracks t.rows t.rows refl),
            h.2,
          ),
          refl,
        )
        | inr (message, lost) ↦ rw lost h
      ])

pub cached-IsCoherent :
    (f : LoadFaults) (cache : Option (List Item)) (t : Table)
    → IsCoherent cache t
    → IsCoherent (cache_get f cache) t
cached-IsCoherent f cache t h = if_cases (λ o. IsCoherent o t) f.get_fails (λ lost. tt) (λ got. h)

pub load_list-IsLoaded :
    (f : LoadFaults) (t : Table) (c : Context) → IsReady t c → IsLoaded t (load_list f t c)
unfolding load_list
load_list-IsLoaded f t c h =
    load_from-IsLoaded f t c.uow.store (cache_get f c.cache) c refl
      (cached-IsCoherent f c.cache t h.0) h

pub change-IsReady :
    (t : Table) (i : ℕ) (x x' : Item) (items : List Item) (c : Context)
    → get_elem? items i ≡ some x
    → x'.idx ≡ x.idx
    → c.uow.store ≡ some items
    → IsReady t c
    → IsReady t (change_item i x' items c)
change-IsReady t i x x' items c found same stored h =
    let tracks : Tracks c.uow.db_ops t.rows items =
      subst (λ o. IsHeld o c.uow.db_ops t) stored h.1 in
    (h.0, save-Tracks c.uow.db_ops t.rows items i x x' found same tracks, h.2)

pub create-IsReady :
    (t : Table) (m : Item) (items : List Item) (c : Context)
    → m.idx ≡ 0
    → c.uow.store ≡ some items
    → IsReady t c
    → IsReady t (record c { uow = create_item m c.uow })
create-IsReady t m items c new stored h =
    let tracks : Tracks c.uow.db_ops t.rows items =
      subst (λ o. IsHeld o c.uow.db_ops t) stored h.1 in
    (h.0, rw stored (create-Tracks c.uow.db_ops t.rows items m new tracks), h.2)

pub add_to-IsReady :
    (catalog : ℕ → Option ℕ) (now item_id amount : ℕ) (t : Table) (items : List Item)
    (o : Option (ℕ × Item)) (c : Context)
    → get_item item_id items ≡ o
    → c.uow.store ≡ some items
    → IsReady t c
    → Ends (IsReady t) (add_to catalog now item_id amount items o c)
add_to-IsReady catalog now item_id amount t items (some (i, x)) c found stored h =
    change-IsReady t i x (record x { amount = (x.amount + amount) % two_64; update_time = now })
      items c (get_item-eq-some item_id items i x found) refl stored h
add_to-IsReady catalog now item_id amount t items none c found stored h = new (catalog item_id)
  where
    new : (o : Option ℕ) → Ends (IsReady t) (add_new now item_id amount o c)
    new none = h
    new (some item_type) = create-IsReady t _ items c refl stored h

pub consume_from-IsReady :
    (now item_id amount : ℕ) (t : Table) (items : List Item) (o : Option (ℕ × Item)) (c : Context)
    → get_item item_id items ≡ o
    → c.uow.store ≡ some items
    → IsReady t c
    → Ends (IsReady t) (consume_from now amount items o c)
consume_from-IsReady now item_id amount t items none c found stored h = h
consume_from-IsReady now item_id amount t items (some (i, x)) c found stored h =
    if_cases (Ends (IsReady t)) (ltb x.amount amount) (λ few. h)
      (λ enough.
        change-IsReady t i x (record x { amount = x.amount - amount; update_time = now }) items c
          (get_item-eq-some item_id items i x found) refl stored h)

loaded-Ends :
    {B : Type 0} (t : Table) (s : Served (List Item)) (k : List Item → Context → Served B)
    → IsLoaded t s
    → ((items : List Item) (c : Context)
        → c.uow.store ≡ some items
        → IsReady t c
        → Ends (IsReady t) (k items c))
    → Ends (IsReady t) (then_with s k)
loaded-Ends t (gives c items) k h rest = rest items c h.1 h.0
loaded-Ends t (fails c e) k h rest = h

module _ (catalog : ℕ → Option ℕ) (now : ℕ) (t : Table) where
  pub call-IsReady :
      (k : Call) (c : Context) → IsReady t c → Ends (IsReady t) (call catalog now t k c)
  unfolding call
  call-IsReady (get_items f) c h =
      loaded-Ends t (load_list f t c) _ (load_list-IsLoaded f t c h)
        (λ items c' stored ready. ready)
  call-IsReady (add_item f item_id amount) c h =
      loaded-Ends t (load_list f t c) _ (load_list-IsLoaded f t c h) (λ items c' stored ready.
        add_to-IsReady catalog now item_id amount t items (get_item item_id items) c' refl stored
          ready)
  call-IsReady (consume_item f item_id amount) c h =
      loaded-Ends t (load_list f t c) _ (load_list-IsLoaded f t c h) (λ items c' stored ready.
        consume_from-IsReady now item_id amount t items (get_item item_id items) c' refl stored
          ready)

  pub handler-IsReady :
      (ks : List Call) (c : Context) → IsReady t c → Ends (IsReady t) (handler catalog now t ks c)
  unfolding handler
  handler-IsReady [] c h = h
  handler-IsReady (k ∷ ks) c h =
      after (call catalog now t k c) (call-IsReady k c h) (handler-IsReady ks)
    where
      after :
          (s : Served (Unit {0}))
          → Ends (IsReady t) s
          → ((c : Context) → IsReady t c → Ends (IsReady t) (handler catalog now t ks c))
          → Ends (IsReady t) (then_with s (λ _ c'. handler catalog now t ks c'))
      after (gives c' _) ready rest = rest c' ready
      after (fails c' e) ready rest = ready
