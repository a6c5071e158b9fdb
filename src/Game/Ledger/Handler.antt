-- ===== src/Game/Ledger/Handler.antt =====
-- A handler and the writes of its request against the ledger.
use future_was.Base.{
  ℕ, zero, suc, ◌+◌, ◌<◌, Option, none, some, List, [], ◌∷◌, ◌++◌, length, get_elem?, set, All, ◌≡◌,
  refl, ◌∙◌, arith, subst,
}
use future_was.Game.Commit.{done, run_fns}
use future_was.Game.Items.{
  Item, Table, Queued, create, save, LoadFaults, Context, Served, gives, fails, get_item, load_list,
  cache_get, Call, get_items, add_item, consume_item, call, handler, then_with,
}
use future_was.Game.Items.Tracks.{place}
use future_was.Game.Items.Keeps.{length-set}
use future_was.Game.Items.Ready.{IsReady, IsLoaded, load_list-IsLoaded, cached-IsCoherent}
use future_was.Game.Ledger.{
  Ledger, amount_of, Promise, allowed, refused, promise, next_promise, promises,
}
use future_was.Game.Ledger.Serves.{
  view, Agrees, IsKept, add_to-IsKept, consume_from-IsKept, load_from-gives,
}
use future_was.Game.Dispatch.{CommitFaults, write_of, save_row}
use future_was.Game.Dispatch.Writes.{writes_from}

-- The database answers whatever is loaded; the cache may fail.
abbrev pub IsAnswered : Call → Type 0
IsAnswered (get_items f) = f.find_error ≡ none
IsAnswered (add_item f item_id amount) = f.find_error ≡ none
IsAnswered (consume_item f item_id amount) = f.find_error ≡ none

module _ (catalog : ℕ → Option ℕ) (now : ℕ) (t : Table) where
  loaded-IsKept :
      (f : LoadFaults) (c : Context) (k : List Item → Context → Served (Unit {0})) (p : Promise)
      → f.find_error ≡ none
      → IsReady t c
      → ((items : List Item) (c' : Context)
          → c'.uow.store ≡ some items
          → IsReady t c'
          → items ≡ view t c.uow.store
          → IsKept t p (k items c'))
      → IsKept t p (then_with (load_list f t c) k)
  unfolding load_list
  loaded-IsKept f c k p fine ready rest =
      let (c', items, given, same) =
        load_from-gives f t c.uow.store (cache_get f c.cache) c fine ready.2
          (cached-IsCoherent f c.cache t ready.0) in
      let loaded : IsLoaded t (gives c' items) =
        subst (IsLoaded t) given (load_list-IsLoaded f t c ready) in
      rw given (rest items c' loaded.1 loaded.0 same)

  call-IsKept :
      (k : Call) (c : Context) (ledger : Ledger)
      → IsAnswered k
      → IsReady t c
      → Agrees (view t c.uow.store) ledger
      → IsKept t (promise catalog k ledger) (call catalog now t k c)
  unfolding call
  call-IsKept (get_items f) c ledger fine ready h =
      loaded-IsKept f c _ (allowed ledger) fine ready
        (λ items c' stored ready' same. (ready', rw stored (rw same h)))
  call-IsKept (add_item f item_id amount) c ledger fine ready h =
      loaded-IsKept f c _ _ fine ready (λ items c' stored ready' same.
        add_to-IsKept catalog now item_id amount t items (get_item item_id items) c' ledger refl
          stored ready' (rw same h))
  call-IsKept (consume_item f item_id amount) c ledger fine ready h =
      loaded-IsKept f c _ _ fine ready (λ items c' stored ready' same.
        consume_from-IsKept now item_id amount t items (get_item item_id items) c' ledger refl
          stored ready' (rw same h))

  next-IsKept :
      (p : Promise) (s : Served (Unit {0})) (next : Ledger → Promise)
      (k : Context → Served (Unit {0}))
      → IsKept t p s
      → ((c : Context) (ledger : Ledger)
          → IsReady t c
          → Agrees (view t c.uow.store) ledger
          → IsKept t (next ledger) (k c))
      → IsKept t (next_promise catalog p next) (then_with s (λ _ c. k c))
  next-IsKept (allowed ledger) (gives c _) next k (ready, h) rest = rest c ledger ready h
  next-IsKept (allowed ledger) (fails c e) next k h rest = absurd h
  next-IsKept (refused code) (gives c _) next k h rest = absurd h
  next-IsKept (refused code) (fails c e) next k h rest = h

  pub handler-IsKept :
      (ks : List Call) (c : Context) (ledger : Ledger)
      → All IsAnswered ks
      → IsReady t c
      → Agrees (view t c.uow.store) ledger
      → IsKept t (promises catalog ks ledger) (handler catalog now t ks c)
  unfolding handler promises
  handler-IsKept [] c ledger fine ready h = (ready, h)
  handler-IsKept (k ∷ ks) c ledger fine ready h =
      next-IsKept (promise catalog k ledger) (call catalog now t k c) (promises catalog ks)
        (handler catalog now t ks) (call-IsKept k c ledger fine.0 ready h)
        (λ c' ledger' ready' h'. handler-IsKept ks c' ledger' fine.1 ready' h')

get_elem?-of_lt : (xs : List Item) (i : ℕ) → i < length xs → (x : Item) × (get_elem? xs i ≡ some x)
get_elem?-of_lt [] i h = absurd (omega arith)
get_elem?-of_lt (x ∷ xs) zero h = (x, refl)
get_elem?-of_lt (x ∷ xs) (suc i) h = get_elem?-of_lt xs i (omega arith)

amount_of-set_same :
    (xs : List Item) (i : ℕ) (x x' : Item) (k : ℕ)
    → get_elem? xs i ≡ some x
    → x'.item_id ≡ x.item_id
    → x'.amount ≡ x.amount
    → amount_of (set xs i x') k ≡ amount_of xs k
unfolding amount_of
amount_of-set_same [] i x x' k e same equal = refl
amount_of-set_same (y ∷ ys) zero x x' k e same equal = ground arith
amount_of-set_same (y ∷ ys) (suc i) x x' k e same equal =
    ground (arith, amount_of-set_same ys i x x' k e same equal)

-- Writes that the database takes end, and give keys to objects at most.
pub writes-end :
    (f : CommitFaults) (k : ℕ) (qs : List Queued) (objects : List Item) (t : Table)
    → ((n : ℕ) → f.write_error n ≡ none)
    → All (λ q. place q < length objects) qs
    → (h : List Item) × (t' : Table) × (run_fns (writes_from f k qs) objects t ≡ done h t')
      × ((j : ℕ) → amount_of h j ≡ amount_of objects j)
unfolding run_fns write_of
writes-end f k [] objects t fine within = (objects, t, refl, λ j. refl)
writes-end f k (create i ∷ qs) objects t fine within =
    let (x, found) = get_elem?-of_lt objects i within.0 in
    let x' = record x { idx = t.next } in
    let (h, t', ran, same) =
      writes-end f (suc k) qs (set objects i x')
        (record { rows = t.rows ++ x' ∷ []; next = t.next + 1 }) fine
        (rw (length-set objects i x') within.1) in
    (
      h,
      t',
      rw (fine k, found, write_of, run_fns) ran,
      λ j. same j ∙ amount_of-set_same objects i x x' j found refl refl,
    )
writes-end f k (save i ∷ qs) objects t fine within =
    let (x, found) = get_elem?-of_lt objects i within.0 in
    let (h, t', ran, same) =
      writes-end f (suc k) qs objects (record t { rows = save_row x t.rows }) fine within.1 in
    (h, t', rw (fine k, found, write_of, run_fns) ran, same)
