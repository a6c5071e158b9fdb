-- ===== src/Reload/Design.antt =====
-- internal/design/syncer.go, `LoadActive`, with internal/design/store.go: the catalog that each version of the
-- client is served from. The query of the table and the loader of a catalog, which downloads it, are parameters.
pub mod Serving
use future_was.Base.{
  ℕ, String, str_eq, Bool, true, false, ◌||◌, Option, none, some, List, [], ◌∷◌, ◌++◌, take,
  if◌then◌else◌,
}
use future_was.Api.{Version}
use future_was.Reload.{Loaded}

-- `MaxActiveVersions`
abbrev pub max_active_versions : ℕ
max_active_versions = 2

abbrev pub has : String → List String → Bool
has x [] = false
has x (y ∷ ys) = str_eq x y || has x ys

-- `orderedSV`, whose elements are those of `seen`, and `cvBySV`.
pub record Grouped : Type 0 where
  pub ordered : List String
  pub cv_by_sv : String → List String

-- One round of the loop over the rows.
abbrev pub group_row : Version → Grouped → Grouped
group_row v g =
    let sv = v.server_version in
    record {
      ordered = if has sv g.ordered then g.ordered else g.ordered ++ sv ∷ [];
      cv_by_sv = λ k. if str_eq k sv then g.cv_by_sv k ++ v.client_version ∷ [] else g.cv_by_sv k;
    }

abbrev pub group_from : List Version → Grouped → Grouped
group_from [] g = g
group_from (v ∷ rows) g = group_from rows (group_row v g)

unfoldable pub group_rows : List Version → Grouped
group_rows rows = group_from rows (record { ordered = []; cv_by_sv = λ _. [] })

module _ (Catalog : Type 0) where
  -- `catalogs` of a store; a version that it does not have has none.
  abbrev pub Store : Type 0
  Store = String → Option Catalog

  -- What `LoadActive` reads: the rows that are active, in the order of the query, or no answer; and for a
  -- server version the catalog, unless its loading fails.
  pub record Source : Type 0 where
    pub active_rows : Option (List Version)
    pub load : String → Option Catalog

module _ {Catalog : Type 0} where
  -- `GetByClientVersion`
  abbrev pub get_by_client_version : Store Catalog → String → Option Catalog
  get_by_client_version store cv = store cv

  -- `newMap[cv] = catalog` for each of the client versions
  abbrev pub put_all : List String → Catalog → Store Catalog → Store Catalog
  put_all [] c m = m
  put_all (cv ∷ cvs) c m = put_all cvs c (λ k. if str_eq k cv then some c else m k)

  -- One round of the loop over `orderedSV`, the first of which is the latest: the map, or the error.
  abbrev pub add_catalog :
      Bool → List String → Option Catalog → Store Catalog → Option (Store Catalog)
  add_catalog true cvs none m = none
  add_catalog false cvs none m = some m
  add_catalog latest cvs (some c) m = some (put_all cvs c m)

  abbrev pub and_then :
      Option (Store Catalog) → (Store Catalog → Option (Store Catalog)) → Option (Store Catalog)
  and_then none rest = none
  and_then (some m) rest = rest m

  abbrev pub load_each :
      Source Catalog
      → (String → List String)
      → Bool
      → List String
      → Store Catalog
      → Option (Store Catalog)
  load_each src cv_by_sv latest [] m = some m
  load_each src cv_by_sv latest (sv ∷ svs) m =
      and_then (add_catalog latest (cv_by_sv sv) (src.load sv) m)
        (λ m'. load_each src cv_by_sv false svs m')

  -- `Replace` with the new map; an error leaves the store as it was.
  abbrev pub replace_with : Option (Store Catalog) → Store Catalog → Loaded (Store Catalog)
  replace_with none store = record { store = store; fine = false }
  replace_with (some m) store = record { store = m; fine = true }

  abbrev pub load_ordered :
      Source Catalog → (String → List String) → List String → Store Catalog → Loaded (Store Catalog)
  load_ordered src cv_by_sv [] store = record { store = store; fine = false }
  load_ordered src cv_by_sv (sv ∷ svs) store =
      replace_with (load_each src cv_by_sv true (take max_active_versions (sv ∷ svs)) (λ _. none))
        store

  abbrev pub load_rows :
      Source Catalog → Option (List Version) → Store Catalog → Loaded (Store Catalog)
  unfolding group_rows
  load_rows src none store = record { store = store; fine = false }
  load_rows src (some rows) store =
      let g = group_rows rows in load_ordered src g.cv_by_sv g.ordered store

  -- `LoadActive`
  unfoldable pub load_active : Source Catalog → Store Catalog → Loaded (Store Catalog)
  load_active src store = load_rows src src.active_rows store
