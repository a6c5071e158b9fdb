-- ===== src/Reload/Deploy.antt =====
-- POST /admin/version and then POST /admin/design/reload, router/admin.go: from a row of the table of the
-- versions to the catalog that every server serves.
use future_was.Base.{
  ℕ, String, str_eq, eq_refl, Bool, true, false, Option, none, some, List, [], ◌∷◌, filter,
  get_elem?, ◌==◌, ◌≡◌, refl, sym, ap, subst, ◌∙◌, arith,
}
use future_was.Base.Runs.{run_by}
use future_was.Api.{Version, Json}
use future_was.Server.Versions.{
  Database, Table, created_row, insert, new_row, bind, byte_at, create_version, find_active,
}
use future_was.Reload.{Server, Fleet, Event, trigger, step, reload_status}
use future_was.Reload.Converges.{IsQuiet, IsAlone}
use future_was.Reload.Design.{Store, Source, get_by_client_version, load_active}
use future_was.Reload.Design.Serving.{pairs, runner_up, by_two, expected}
use future_was.Reload.Everywhere.{every_server_serves}

-- A creation that succeeds puts its row before the others.
insert-rows :
    (db : Database) (r row : Version) (t t' : Table)
    → insert db r t ≡ (t', created_row row)
    → t'.rows ≡ row ∷ t.rows
unfolding insert
insert-rows db r row t t' e = ground arith

bind-rows :
    (db : Database) (now : String) (body : List (String × Json)) (a u i : Option ℕ) (row : Version)
    (t t' : Table)
    → bind db now body a u i t ≡ (t', created_row row)
    → t'.rows ≡ row ∷ t.rows
unfolding bind
bind-rows db now body (some a) (some u) (some i) row t t' e =
    insert-rows db (new_row now body t.next a u i) row t t' e
bind-rows db now body none _ _ row t t' e = let c = ap (λ p. p.1) e in absurd (cc)
bind-rows db now body (some a) none _ row t t' e = let c = ap (λ p. p.1) e in absurd (cc)
bind-rows db now body (some a) (some u) none row t t' e = let c = ap (λ p. p.1) e in absurd (cc)

pairs-filter :
    (p : Version → Bool) (sv cv : String) (rows : List Version)
    → pairs sv cv rows ≡ false
    → pairs sv cv (filter p rows) ≡ false
pairs-filter p sv cv [] h = refl
pairs-filter p sv cv (v ∷ rows) h = ground (arith, pairs-filter p sv cv rows)

runner_up-apart :
    (sv : String) (rows : List Version) {w : Version}
    → runner_up sv rows ≡ some w
    → str_eq w.server_version sv ≡ false
runner_up-apart sv [] {w = w} e = cc
runner_up-apart sv (v ∷ rows) {w = w} e = ground (arith, runner_up-apart sv rows {w = w})

module _ {Catalog : Type 0} where
  by_two-first :
      (src : Source Catalog) (offers : String → Bool) (a : String) (o : Option Version)
      → offers a ≡ true
      → ((w : Version) → o ≡ some w → offers w.server_version ≡ false)
      → by_two src offers a o ≡ src.load a
  by_two-first src offers a none h apart = rw h refl
  by_two-first src offers a (some w) h apart = rw (apart w refl, h) refl

abbrev pub first_version : List Version → Option String
first_version [] = none
first_version (v ∷ rows) = some v.server_version

module _ {Catalog : Type 0} (order_desc : List Version → List Version)
    (load : String → Option Catalog) where
  -- What the syncer reads, for a table.
  abbrev pub source_of : Table → Source Catalog
  source_of t = record { active_rows = some (find_active order_desc t); load = load }

  first-expected :
      (src : Source Catalog) (row : Version) (rows : List Version)
      → first_version rows ≡ some row.server_version
      → pairs row.server_version row.client_version rows ≡ true
      → ((sv : String)
          → str_eq sv row.server_version ≡ false
          → pairs sv row.client_version rows ≡ false)
      → expected src (some rows) row.client_version ≡ src.load row.server_version
  first-expected src row [] h there sole = cc
  first-expected src row (v ∷ rest) h there sole =
      let a = row.server_version in
      let cv = row.client_version in
      let same : v.server_version ≡ a = cc in
      by_two-first src (λ sv. pairs sv cv (v ∷ rest)) v.server_version
        (runner_up v.server_version rest)
        (subst (λ s. pairs s cv (v ∷ rest) ≡ true) (sym same) there)
        (λ w found. sole w.server_version (
          subst (λ s. str_eq w.server_version s ≡ false) same
            (runner_up-apart v.server_version rest found)))
      ∙ ap src.load same

  -- The rows that are active after a creation.
  created-pairs :
      (row : Version) (t t' : Table)
      → t'.rows ≡ row ∷ t.rows
      → row.is_active ≡ 1
      → ((sv cv : String) (rows : List Version) → pairs sv cv (order_desc rows) ≡ pairs sv cv rows)
      → pairs row.server_version row.client_version (find_active order_desc t') ≡ true
  unfolding find_active
  created-pairs row t t' e active keeps =
      let a = row.server_version in
      let cv = row.client_version in
      let act : (row.is_active == 1) ≡ true = ground arith in
      keeps a cv (filter (λ r. r.is_active == 1) t'.rows)
      ∙ subst (λ rows. pairs a cv (filter (λ r. r.is_active == 1) rows) ≡ true) (sym e)
          (ground (arith, eq_refl a, eq_refl cv))

  created-sole :
      (row : Version) (t t' : Table)
      → t'.rows ≡ row ∷ t.rows
      → ((sv cv : String) (rows : List Version) → pairs sv cv (order_desc rows) ≡ pairs sv cv rows)
      → ((sv : String)
          → str_eq sv row.server_version ≡ false
          → pairs sv row.client_version t.rows ≡ false)
      → (sv : String) → str_eq sv row.server_version ≡ false
      → pairs sv row.client_version (find_active order_desc t') ≡ false
  unfolding find_active
  created-sole row t t' e keeps sole sv other =
      let cv = row.client_version in
      let absent = sole sv other in
      keeps sv cv (filter (λ r. r.is_active == 1) t'.rows)
      ∙ pairs-filter (λ r. r.is_active == 1) sv cv t'.rows
          (subst (λ rows. pairs sv cv rows ≡ false) (sym e) (ground arith))

  -- A row is created whose flag for active is 1, its server version comes first among the active rows, and
  -- no other row gives its client version another server version. If a reload of the designs at a
  -- server whose id no other has then answers 200, and the order of the query keeps the rows, then after
  -- any reloads and deliveries that follow, while the source is the same, every server that has no
  -- message left to read serves the client version of the row the catalog of its server version.
  pub deployed_everywhere :
      (db : Database) (now : String) (body : List (String × Json)) (row : Version) (t t' : Table)
      (i : ℕ) (published : Bool) (es : List (Event (Source Catalog)))
      (servers : List (Server (Store Catalog))) (k : ℕ) {s r : Server (Store Catalog)}
      → create_version db now body t ≡ (t', created_row row)
      → row.is_active ≡ 1
      → ((sv cv : String) (rows : List Version) → pairs sv cv (order_desc rows) ≡ pairs sv cv rows)
      → first_version (find_active order_desc t') ≡ some row.server_version
      → ((sv : String)
          → str_eq sv row.server_version ≡ false
          → pairs sv row.client_version t.rows ≡ false)
      → get_elem? servers i ≡ some s
      → reload_status (load_active (source_of t') s.store) published ≡ 200
      → IsAlone s.self_id i servers
      → IsQuiet es
      → let w : Fleet (Source Catalog) (Store Catalog) = record {
        env = source_of t';
        servers = servers;
      } in
        get_elem? (run_by (step load_active) (trigger i published ∷ es) w).servers k ≡ some r
        → r.inbox ≡ []
        → get_by_client_version r.store row.client_version ≡ load row.server_version
  unfolding create_version
  deployed_everywhere db now body row t t' i published es servers k {s = s} created active keeps
        newest sole at ok alone quiet found empty =
      let src = source_of t' in
      let put =
        bind-rows db now body (byte_at "is_active" body) (byte_at "update_flag" body)
          (byte_at "inspection_flag" body) row t t' created in
      every_server_serves src i published es servers k row.client_version at ok alone quiet found
        empty
      ∙ first-expected src row (find_active order_desc t') newest
          (created-pairs row t t' put active keeps) (created-sole row t t' put keeps sole)
