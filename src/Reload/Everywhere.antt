-- ===== src/Reload/Everywhere.antt =====
-- The handlers POST /admin/design/reload and POST /admin/resource/reload of router/admin.go: what they bring
-- about at all the servers.
use future_was.Base.{
  subst, ◌%◌, Bool, sym, arith, ℕ, String, true, false, Option, none, some, List, [], ◌∷◌,
  get_elem?, take, if◌then◌else◌, ◌≡◌, refl, ◌∙◌, ap,
}
use future_was.Base.Runs.{run_by}
use future_was.Api.{Version}
use future_was.Reload.{Loaded, reload_status, Server, Fleet, Event, trigger, step}
use future_was.Reload.Converges.{IsQuiet, IsAlone, IsLoadable, reloaded}
use future_was.Reload.Design.{
  Store, Source, group_rows, get_by_client_version, replace_with, load_ordered, load_each,
  load_rows, load_active,
}
use future_was.Reload.Design.Serving.{expected, load_active_serves}
use future_was.Reload.Maintenance.{ServerMaintenance, load_all, is_exempt, maintenance_middleware}
use future_was.Reload.Maintenance.Latest.{IsDescending, IsRight, latest_message}

told :
    {S : Type 0} (r : Loaded S) (published : Bool)
    → reload_status r published ≡ 200
    → (r.fine ≡ true) × (published ≡ true)
told r published h = ground arith

module _ {Catalog : Type 0} (src : Source Catalog) where
  -- A load of the designs that has no error leaves the same whatever the store was.
  replace_with-again :
      (o : Option (Store Catalog)) (s t : Store Catalog)
      → (replace_with o s).fine ≡ true
      → replace_with o t ≡ record { store = (replace_with o s).store; fine = true }
  replace_with-again none s t h = cc
  replace_with-again (some m) s t h = refl

  load_ordered-again :
      (cvs : String → List String) (ordered : List String) (s t : Store Catalog)
      → (load_ordered src cvs ordered s).fine ≡ true
      → load_ordered src cvs ordered t
        ≡ record { store = (load_ordered src cvs ordered s).store; fine = true }
  load_ordered-again cvs [] s t h = cc
  load_ordered-again cvs (sv ∷ svs) s t h =
      replace_with-again (load_each src cvs true (take 2 (sv ∷ svs)) (λ _. none)) s t h

  load_active-again :
      (answer : Option (List Version)) (s t : Store Catalog)
      → (load_rows src answer s).fine ≡ true
      → load_rows src answer t ≡ record { store = (load_rows src answer s).store; fine = true }
  unfolding group_rows
  load_active-again none s t h = cc
  load_active-again (some rows) s t h =
      let g = group_rows rows in load_ordered-again g.cv_by_sv g.ordered s t h

  -- If a reload of the designs at a server whose id no other has answers 200, then after any reloads
  -- and deliveries that follow, in any order, while the source is the same: every server that has no
  -- message left to read serves each version of the client as the rows and the catalogs of the source
  -- say.
  pub every_server_serves :
      (i : ℕ) (published : Bool) (es : List (Event (Source Catalog)))
      (servers : List (Server (Store Catalog))) (k : ℕ) (cv : String) {s r : Server (Store Catalog)}
      → get_elem? servers i ≡ some s
      → reload_status (load_active src s.store) published ≡ 200
      → IsAlone s.self_id i servers
      → IsQuiet es
      → let w : Fleet (Source Catalog) (Store Catalog) = record { env = src; servers = servers } in
        get_elem? (run_by (step load_active) (trigger i published ∷ es) w).servers k ≡ some r
        → r.inbox ≡ []
        → get_by_client_version r.store cv ≡ expected src src.active_rows cv
  unfolding load_active group_rows
  every_server_serves i published es servers k cv {s = s} {r = r} at ok alone quiet found empty =
      let (fine, sent) = told (load_active src s.store) published ok in
      let can = sym ((load_active_serves src s.store "").0) ∙ fine in
      let target = (load_active src (λ _. none)).store in
      let loadable : IsLoadable load_active src target = λ t.
        load_active-again src.active_rows (λ _. none) t
          ((load_active_serves src (λ _. none) "").0 ∙ can) in
      let w : Fleet (Source Catalog) (Store Catalog) = record { env = src; servers = servers } in
      let found' =
        subst (λ b. get_elem? (run_by (step load_active) (trigger i b ∷ es) w).servers k ≡ some r)
          sent found in
      let current =
        reloaded load_active src target loadable i es servers at alone quiet k found' empty in
      ap (λ st. st cv) current
      ∙ (load_active_serves src (λ _. none) cv).1
      ∙ ap (λ b. if b then expected src src.active_rows cv else none) can

-- If a reload of the maintenances at a server whose id no other has answers 200, and the rows come in the
-- order of their versions, the greatest first, then after any reloads and deliveries that follow while the
-- rows are the same, every server that has no message left to read handles a request of a path that is
-- not exempt as the rows say: it refuses it with the code 5001 and the message of a row that lasts, of
-- which no other that lasts has a greater version, and lets it through only if no row lasts.
pub every_server_closes :
    (rows : List ServerMaintenance) (i : ℕ) (es : List (Event (Option (List ServerMaintenance))))
    (servers : List (Server (List ServerMaintenance))) (published : Bool) (unix : ℕ) (path : List ℕ)
    (k : ℕ) {s r : Server (List ServerMaintenance)}
    → IsDescending rows
    → is_exempt path ≡ false
    → get_elem? servers i ≡ some s
    → reload_status (load_all (some rows) s.store) published ≡ 200
    → IsAlone s.self_id i servers
    → IsQuiet es
    → let w : Fleet (Option (List ServerMaintenance)) (List ServerMaintenance) = record {
      env = some rows;
      servers = servers;
    } in
      get_elem? (run_by (step load_all) (trigger i published ∷ es) w).servers k ≡ some r
      → r.inbox ≡ []
      → IsRight (unix % 4294967296) rows (maintenance_middleware r.store unix path)
every_server_closes rows i es servers published unix path k {s = s} {r = r} descending closed at ok
      alone quiet found empty =
    let w : Fleet (Option (List ServerMaintenance)) (List ServerMaintenance) = record {
      env = some rows;
      servers = servers;
    } in
    let found' =
      subst (λ b. get_elem? (run_by (step load_all) (trigger i b ∷ es) w).servers k ≡ some r)
        (told (load_all (some rows) s.store) published ok).1 found in
    let current =
      reloaded load_all (some rows) rows (λ s. refl) i es servers at alone quiet k found' empty in
    rw current (latest_message rows unix path descending closed)
