-- ===== src/VersionPage/Deployed.antt =====
-- The version page with the table of the server.
use future_was.Base.{
  ℕ, suc, Bool, Option, All, true, false, not, ◌&&◌, none, some, List, [], ◌∷◌, length-map, subst,
  ◌++◌, take, length, map, ◌≡◌, ◌≢◌, refl, sym, ap, ◌∙◌,
}
use future_was.Base.Results.{Result, ok, err}
use future_was.Base.Decimal.{show_nat}
use future_was.Api.{Response, responded, request, Version}
use future_was.Server.Versions.{
  Table, slice, find_all, DeleteReply, deleted_row, invalid_idx, not_found, delete_failed, without,
  has_idx, delete_version,
}
use future_was.Server.Versions.Rows.{
  AreDistinct, parse_uint-show_nat, ArePresent, present-without, without_all, filter-AreDistinct,
  All-filter, take-AreDistinct, All-take, AreSmall, self-ArePresent, without_all-has_idx,
}
use future_was.VersionPage.{
  deleted_all, Pending, deleting, Page, targets, selected_idx_list, delete_requests,
}
use future_was.DataTable.{Selection}
use future_was.VersionPage.Session.{listed, deleted, Event, press_delete, answer, step, run}
use future_was.VersionPage.Outcomes.{run-append, oks, delete_starts}

-- The response to a deletion; the text of an error of the database is of no matter here.
abbrev pub response_of : DeleteReply → Response ℕ
response_of (deleted_row idx) = record {
  status = 200;
  status_text = "OK";
  text = ok "";
  json = ok idx;
}
response_of invalid_idx = record {
  status = 400;
  status_text = "Bad Request";
  text = ok "{\"error\":\"invalid idx\"}\n";
  json = err "";
}
response_of not_found = record {
  status = 404;
  status_text = "Not Found";
  text = ok "{\"error\":\"not found\"}\n";
  json = err "";
}
response_of delete_failed = record {
  status = 500;
  status_text = "Internal Server Error";
  text = ok "";
  json = err "";
}

-- What `versionApi.delete` settles to.
unfoldable pub delete_result : DeleteReply → Result ℕ
unfolding request
delete_result reply = request (responded (response_of reply))

-- The server deletes rows in the order of the requests, of which `db` says whether the database
-- carries out that of a number; the answers, and the table that is left.
abbrev pub serve : (ℕ → Bool) → List Version → Table → List Event × Table
serve db [] t = ([], t)
serve db (r ∷ ts) t =
    let (u, reply) = delete_version (db r.idx) (show_nat r.idx) t in
    let (es, last) = serve db ts u in (answer 0 (deleted (delete_result reply)) ∷ es, last)

-- The database carries out the deletions of the rows.
abbrev pub CarriesOut : (ℕ → Bool) → List Version → Type 0
CarriesOut db ts = All (λ r. db r.idx ≡ true) ts

serve-oks :
    (db : ℕ → Bool) (ts : List Version) (t : Table)
    → CarriesOut db ts
    → AreDistinct ts
    → ArePresent ts t.rows
    → serve db ts t
      ≡ (oks (map (λ (r : Version). r.idx) ts), record t { rows = without_all ts t.rows })
unfolding delete_version delete_result
serve-oks db [] t c d p = refl
serve-oks db (r ∷ ts) t (carried, c) (apart, d) ((here, small), later) =
    let next = record t { rows = without r.idx t.rows } in
    rw (
      carried,
      parse_uint-show_nat r.idx small,
      here,
      serve-oks db ts next c d (present-without r.idx ts t.rows apart later),
    )

-- The last confirmation starts the reading of the list.
run-all_oks :
    (ns : List ℕ) (m n : ℕ) (s : Page) (rest : List Pending)
    → run (oks (m ∷ ns)) (record s { pending = deleting n (suc (length ns)) ∷ rest })
      ≡ deleted_all n (record s { pending = rest })
unfolding run step
run-all_oks [] m n s rest = refl
run-all_oks (k ∷ ns) m n s rest = run-all_oks ns k n s rest

-- The page after a deletion, for the list that was read.
pub record Deleted (v : Page) (list : Option (List Version)) : Type 0 where
  pub rows : v.rows ≡ list
  pub selection : v.selection ≡ []
  pub busy : v.busy ≡ false
  pub error : v.error ≡ none

relisted :
    (n : ℕ) (s : Page) (list : Option (List Version))
    → s.error ≡ none
    → Deleted (run (answer 0 (listed (ok list)) ∷ []) (deleted_all n s)) list
unfolding run step
relisted n s list clean = record { rows = refl; selection = refl; busy = refl; error = clean }

run-Deleted :
    (s : Page) (rows ts : List Version) (r : Version) (list : Option (List Version))
    → s.busy ≡ false
    → s.rows ≡ some rows
    → length (selected_idx_list s.selection) ≢ 0
    → targets rows s.selection ≡ r ∷ ts
    → Deleted
        (run
          (press_delete true
            ∷ (oks (map (λ (x : Version). x.idx) (r ∷ ts)) ++ answer 0 (listed (ok list)) ∷ []))
          s)
        list
unfolding run
run-Deleted s rows ts r list idle loaded some_selected found =
    let ns = map (λ (x : Version). x.idx) ts in
    let started = record s { busy = true; error = none; sent = delete_requests (r ∷ ts) s.sent } in
    let n = suc (length ts) in
    let last = answer 0 (listed (ok list)) ∷ [] in
    let confirmed : run (oks (r.idx ∷ ns)) (record started { pending = deleting n n ∷ s.pending })
        ≡ deleted_all n started =
      subst
        (λ k.
          run (oks (r.idx ∷ ns)) (record started { pending = deleting n (suc k) ∷ s.pending })
          ≡ deleted_all n started)
        (length-map ts (λ (x : Version). x.idx)) (run-all_oks ns r.idx n started s.pending) in
    let begins =
      ap (run (oks (r.idx ∷ ns))) (delete_starts s rows ts r idle loaded some_selected found) in
    subst (λ v. Deleted v list)
      (sym (
        run-append (oks (r.idx ∷ ns)) last (step (press_delete true) s)
        ∙ ap (run last) (begins ∙ confirmed)))
      (relisted n started list refl)

-- The rows of a list that may be missing.
abbrev pub listed_rows : Option (List Version) → List Version
listed_rows none = []
listed_rows (some rows) = rows

abbrev pub selected_rows : Page → Table → List Version
selected_rows s t = targets (listed_rows (find_all t)) s.selection

listed_rows-slice : (rows : List Version) → listed_rows (slice rows) ≡ rows
listed_rows-slice [] = refl
listed_rows-slice (r ∷ rows) = refl

-- A table that lists some row is listed as rows.
listed_rows-some :
    (l : Option (List Version)) (sel : Selection) (r : Version) (ts : List Version)
    → targets (listed_rows l) sel ≡ r ∷ ts
    → l ≡ some (listed_rows l)
unfolding targets
listed_rows-some none sel r ts found = absurd (cc)
listed_rows-some (some rows) sel r ts found = refl

targets-AreDistinct : (s : Page) (t : Table) → AreDistinct t.rows → AreDistinct (selected_rows s t)
unfolding targets find_all
targets-AreDistinct s t d =
    rw (listed_rows-slice (take 200 t.rows))
      (filter-AreDistinct _ (take 200 t.rows) (take-AreDistinct 200 t.rows d))

targets-ArePresent :
    (s : Page) (t : Table) → AreSmall t.rows → ArePresent (selected_rows s t) t.rows
unfolding targets find_all
targets-ArePresent s t h =
    rw (listed_rows-slice (take 200 t.rows))
      (All-filter _ _ (take 200 t.rows) (All-take _ 200 t.rows (self-ArePresent t.rows h)))

find_all-empty : (t : Table) → t.rows ≡ [] → find_all t ≡ none
unfolding find_all
find_all-empty t empty = rw empty refl

-- Rows are selected in the list of the server, and their deletion is confirmed, on an idle page and
-- with nobody else changing the table, whose numbers are distinct and of 64 bits, and the database
-- carries out each deletion: the selected rows are gone from the table and no others, and the page
-- has the new list as the server sends it, idle, with nothing selected and no error. When the last
-- row is gone, what the server sends is no list.
pub delete_leaves :
    (db : ℕ → Bool) (s : Page) (t : Table) (r : Version) (ts : List Version)
    → s.busy ≡ false
    → s.rows ≡ find_all t
    → length (selected_idx_list s.selection) ≢ 0
    → selected_rows s t ≡ r ∷ ts
    → AreDistinct t.rows
    → AreSmall t.rows
    → CarriesOut db (r ∷ ts)
    → let (es, u) = serve db (r ∷ ts) t in
      Deleted
        (run (press_delete true ∷ (es ++ answer 0 (listed (ok (find_all u))) ∷ [])) s)
        (find_all u)
      × ((n : ℕ) → has_idx n u.rows ≡ (has_idx n t.rows && not (has_idx n (r ∷ ts))))
      × (u.rows ≡ [] → find_all u ≡ none)
delete_leaves db s t r ts idle loaded some_selected found distinct small carried =
    let d = subst AreDistinct found (targets-AreDistinct s t distinct) in
    let p = subst (λ l. ArePresent l t.rows) found (targets-ArePresent s t small) in
    subst
      (λ served.
        Deleted
          (run (press_delete true ∷ (served.0 ++ answer 0 (listed (ok (find_all served.1))) ∷ []))
            s)
          (find_all served.1)
        × ((n : ℕ) → has_idx n served.1.rows ≡ (has_idx n t.rows && not (has_idx n (r ∷ ts))))
        × (served.1.rows ≡ [] → find_all served.1 ≡ none))
      (sym (serve-oks db (r ∷ ts) t carried d p))
      (
        run-Deleted s (listed_rows (find_all t)) ts r _ idle
            (loaded ∙ listed_rows-some (find_all t) s.selection r ts found) some_selected found,
        λ n. without_all-has_idx (r ∷ ts) t.rows n,
        λ empty. find_all-empty _ empty,
      )
