-- ===== src/Reload/Maintenance/Latest.antt =====
-- internal/middleware/maintenance.go with the order of the rows, `maintenance_version DESC`, and with the
-- paths of web/admin/src/api/client.ts.
use future_was.Base.{
  ◌<◌, ◌↔◌, ℕ, ◌%◌, ◌≤◌, String, true, false, some, List, [], ◌∷◌, codes, find, get_elem?, suc, All,
  ◌==◌, if◌then◌else◌, ◌≡◌, refl, ap, ◌∙◌, ◌++◌, template, inl, inr, Bool-cases, arith,
}
use Prim.Native.String
use future_was.Base.Int.{ℤ}
use future_was.Base.Decimal.{show_nat}
use future_was.Server.Query.Roundtrip.{codes-append}
use future_was.Api.{
  base, category_text, query_string, HttpRequest, Category, VersionCreateInput,
  CreateMigrationInput, admin_info, clock_get, clock_jump, version_list, version_create,
  version_delete, version_reload, migrations_status, migrations_file, migrations_create,
}
use future_was.Reload.Maintenance.{
  ServerMaintenance, covers, active_maintenance, is_exempt, Gate, next, refused, gate_by,
  maintenance_middleware,
}

-- No row has a version above that of a row before it.
abbrev pub IsDescending : List ServerMaintenance → Type 0
IsDescending [] = Unit
IsDescending (m ∷ rows) =
    All (λ r. r.maintenance_version ≤ m.maintenance_version) rows × IsDescending rows

-- The maintenance has begun, and has not ended.
abbrev pub Lasts : ℕ → ServerMaintenance → Type 0
Lasts now m = (m.start_time ≤ now) × (now < m.end_time)

covers_iff : (now : ℕ) (m : ServerMaintenance) → (covers now m ≡ true) ↔ Lasts now m
covers_iff now m = ground arith

abbrev pub IsOver : ℕ → List ServerMaintenance → Type 0
IsOver now rows = All (λ r. ¬ Lasts now r) rows

-- The row lasts at the time, and no row that lasts has a greater version.
abbrev pub IsLatest : ℕ → ServerMaintenance → List ServerMaintenance → Type 0
IsLatest now m rows =
    Lasts now m × All (λ r. Lasts now r → r.maintenance_version ≤ m.maintenance_version) rows

-- What a gate says of the rows.
abbrev pub IsRight : ℕ → List ServerMaintenance → Gate → Type 0
IsRight now rows next = IsOver now rows
IsRight now rows (refused code text) =
    (code ≡ 5001)
    × ((i : ℕ) × (m : ServerMaintenance) × (get_elem? rows i ≡ some m)
        × (m.msg ≡ text)
        × IsLatest now m rows)

-- The part of a URL before its query, by code points.
abbrev pub path_of : List ℕ → List ℕ
path_of [] = []
path_of (c ∷ url) = let rest = path_of url in if c == 63 then [] else c ∷ rest

All-always :
    (m : ServerMaintenance) (now : ℕ) (rows : List ServerMaintenance)
    → All (λ r. r.maintenance_version ≤ m.maintenance_version) rows
    → All (λ r. Lasts now r → r.maintenance_version ≤ m.maintenance_version) rows
All-always m now [] h = tt
All-always m now (r ∷ rows) h = (λ _. h.0, All-always m now rows h.1)

later-IsRight :
    (now : ℕ) (m : ServerMaintenance) (rows : List ServerMaintenance) (g : Gate)
    → ¬ Lasts now m
    → IsRight now rows g
    → IsRight now (m ∷ rows) g
later-IsRight now m rows next over h = (over, h)
later-IsRight now m rows (refused code text) over (coded, (i, r, found, said, (lasts, latest))) =
    (coded, (suc i, r, found, said, (lasts, (λ l. absurd (over l), latest))))

find-IsRight :
    (now : ℕ) (rows : List ServerMaintenance)
    → IsDescending rows
    → IsRight now rows (gate_by (find (covers now) rows))
find-IsRight now [] d = tt
find-IsRight now (m ∷ rows) (below, d) = elim (Bool-cases (covers now m)) [
  | inl on ↦
      let lasts = (covers_iff now m).0 on in
      rw on (refl, (0, m, refl, refl, (lasts, (λ _. omega arith, All-always m now rows below))))
  | inr off ↦
      let over : ¬ Lasts now m = λ l. absurd (ground (arith, (covers_iff now m).1 l)) in
      rw off
        (later-IsRight now m rows (gate_by (find (covers now) rows)) over (find-IsRight now rows d))
]

pub latest_message :
    (rows : List ServerMaintenance) (unix : ℕ) (path : List ℕ)
    → IsDescending rows
    → is_exempt path ≡ false
    → IsRight (unix % 4294967296) rows (maintenance_middleware rows unix path)
unfolding maintenance_middleware active_maintenance
latest_message rows unix path d open_path = rw open_path (find-IsRight (unix % 4294967296) rows d)

-- A text that begins with a slash, with more after it.
slash :
    (s t : String) (rest : List ℕ)
    → codes s ≡ 47 ∷ rest
    → codes (String.◌++◌ s t) ≡ 47 ∷ (rest ++ codes t)
slash s t rest e = codes-append s t ∙ ap (λ l. l ++ codes t) e

module _ (rows : List ServerMaintenance) (unix : ℕ) where
  -- The request is let through.
  abbrev pub Passes : HttpRequest → Type 0
  Passes r = maintenance_middleware rows unix (path_of (codes r.url)) ≡ next

  below_admin :
      (url : String) (rest : List ℕ)
      → codes url ≡ codes "/admin/" ++ rest
      → maintenance_middleware rows unix (path_of (codes url)) ≡ next
  unfolding maintenance_middleware
  below_admin url rest e = rw e refl

  below_base :
      (tail : String) (rest : List ℕ)
      → codes tail ≡ 47 ∷ rest
      → maintenance_middleware rows unix (path_of (codes (String.◌++◌ base tail))) ≡ next
  below_base tail rest e =
      below_admin (String.◌++◌ base tail) rest
        (codes-append base tail ∙ ap (λ l. codes base ++ l) e)

  pub console-Passes :
      (z : ℤ) (user version filename : String) (v : VersionCreateInput) (idx : ℕ)
      (category : Category) (input : CreateMigrationInput)
      → Passes admin_info
        × Passes clock_get
        × Passes (clock_jump z user)
        × Passes version_list
        × Passes (version_create v)
        × Passes (version_delete idx)
        × Passes version_reload
        × Passes migrations_status
        × Passes (migrations_file category version filename)
        × Passes (migrations_create input)
  unfolding maintenance_middleware
  console-Passes z user version filename v idx category input =
      let parts =
        ("category", category_text category) ∷ ("version", version) ∷ ("filename", filename) ∷ [] in
      let file : String = "/migrations/file?" in
      let query = template (query_string parts ∷ []) in
      (
        refl,
        refl,
        refl,
        refl,
        refl,
        below_base (template ("/version/" ∷ show_nat idx ∷ [])) _
            (slash "/version/" (template (show_nat idx ∷ [])) (codes "version/") refl),
        refl,
        refl,
        below_base (template (String.◌++◌ file query ∷ [])) _ (
            slash (String.◌++◌ file query) "" _ (slash file query (codes "migrations/file?") refl)),
        refl,
      )
