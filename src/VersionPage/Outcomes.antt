-- ===== src/VersionPage/Outcomes.antt =====
-- How the operations of the version page end.
use future_was.Base.{
  ◌⊎◌, inl, inr, ltb, ◌-◌, if◌then◌else◌, Bool-cases, ℕ, suc, ◌+◌, ◌≤◌, true, false, String, Option,
  none, some, List, [], ◌∷◌, ◌++◌, length, take, map, ap, ◌≡◌, refl, arith, length-take, length-map,
  sym, ◌∙◌, ◌≢◌,
}
use future_was.Base.Runs.{run_by-append}
use future_was.Base.Trim.{all_white, is_empty-trim}
use future_was.Base.Results.{ok, err}
use future_was.Api.{Version, VersionCreateInput}
use future_was.VersionPage.{
  Pending, deleting, Page, empty_input, on_delete_press, targets, selected_idx_list, confirm_lines,
  confirm_more, confirm_line, delete_start, delete_requests,
}
use future_was.VersionPage.Session.{
  listed, created, deleted, ignored, Event, Edit, update, press_create, press_delete, type_in,
  answer, step, run,
}

pub run-append : (es fs : List Event) (s : Page) → run (es ++ fs) s ≡ run fs (run es s)
unfolding run
run-append es fs s = run_by-append step es fs s

-- Typing into the form changes the form only.
run-type_in :
    (edits : List Edit) (s : Page)
    → (input : VersionCreateInput) × (run (map type_in edits) s ≡ record s { input = input })
unfolding run step
run-type_in [] s = (s.input, refl)
run-type_in (e ∷ edits) s = run-type_in edits (record s { input = update e s.input })

abbrev pub answers_of_create : Version → Option (List Version) → List Event
answers_of_create v list = answer 0 (created (ok v)) ∷ answer 0 (listed (ok list)) ∷ []

pub record Created (s t : Page) (list : Option (List Version)) : Type 0 where
  pub rows : t.rows ≡ list
  pub selection : t.selection ≡ []
  pub input : t.input ≡ empty_input
  pub busy : t.busy ≡ false
  pub error : t.error ≡ none
  pub pending : t.pending ≡ s.pending

create_from_press :
    (s : Page) (input : VersionCreateInput) (v : Version) (list : Option (List Version))
    → s.busy ≡ false
    → all_white s.input.client_version ≡ false
    → all_white s.input.server_version ≡ false
    → Created s
        (run (answers_of_create v list) (record (step press_create s) { input = input }))
        list
unfolding run step
create_from_press s input v list idle client server =
    ground (arith, is_empty-trim s.input.client_version, is_empty-trim s.input.server_version)

-- A creation from an idle page whose two versions are not blank, with both requests answered and
-- any typing before: the page is idle again, has the list that the server sent with nothing selected and no error,
-- and its form is empty, so what was typed after the press is lost.
pub create_succeeds :
    (s : Page) (edits : List Edit) (v : Version) (list : Option (List Version))
    → s.busy ≡ false
    → all_white s.input.client_version ≡ false
    → all_white s.input.server_version ≡ false
    → Created s (run (press_create ∷ map type_in edits ++ answers_of_create v list) s) list
unfolding run
create_succeeds s edits v list idle client server =
    let (input, typed) = run-type_in edits (step press_create s) in
    rw (run-append (map type_in edits) (answers_of_create v list) (step press_create s), typed)
      (create_from_press s input v list idle client server)

abbrev pub oks : List ℕ → List Event
oks [] = []
oks (n ∷ ns) = answer 0 (deleted (ok n)) ∷ oks ns

-- While fewer deletions are confirmed than are open, only the number that is open changes.
pub run-oks :
    (ns : List ℕ) (s : Page) (n k left : ℕ) (rest : List Pending)
    → k ≡ length ns + left
    → run (oks ns) (record s { pending = deleting n (suc k) ∷ rest })
      ≡ record s { pending = deleting n (suc left) ∷ rest }
unfolding run step
run-oks [] s n k left rest e = let same : k ≡ left = omega arith in rw same
run-oks (m ∷ ns) s n k left rest e =
    let more : k ≡ suc (length ns + left) = omega arith in
    rw more (run-oks ns s n (length ns + left) left rest refl)

partial_delete_from :
    (s : Page) (n left : ℕ) (ns : List ℕ) (e : String) (rest : List Pending)
    → run
        (oks ns ++ answer 0 (deleted (err e)) ∷ [])
        (record s { pending = deleting n (suc (length ns + left)) ∷ rest })
      ≡ record s { error = some e; busy = false; pending = ignored left rest }
unfolding run step
partial_delete_from s n left ns e rest =
    let here : suc left - 1 ≡ left = omega arith in
    rw (
      run-append (oks ns) (answer 0 (deleted (err e)) ∷ [])
          (record s { pending = deleting n (suc (length ns + left)) ∷ rest }),
      run-oks ns s n (length ns + left) left rest refl,
      here,
    )

-- What a confirmed press of the button starts.
pub delete_starts :
    (s : Page) (rows ts : List Version) (r : Version)
    → s.busy ≡ false
    → s.rows ≡ some rows
    → length (selected_idx_list s.selection) ≢ 0
    → targets rows s.selection ≡ r ∷ ts
    → step (press_delete true) s ≡ record s {
      busy = true;
      error = none;
      pending = deleting (suc (length ts)) (suc (length ts)) ∷ s.pending;
      sent = delete_requests (r ∷ ts) s.sent;
    }
delete_starts s rows ts r idle loaded some_selected found =
    let started : delete_start (targets rows s.selection) s ≡ delete_start (r ∷ ts) s =
      ap (λ l. delete_start l s) found in
    unfold step on_delete_press in ground (arith)

-- A confirmed deletion that is refused after some of its rows were deleted: the page is idle again
-- and shows the error, and the deleted rows are still listed and selected, since nothing reads the
-- list again. The deletions that are not answered yet stay open, with nobody waiting for them.
pub partial_delete_is_stale :
    (s : Page) (rows ts : List Version) (r : Version) (ns : List ℕ) (left : ℕ) (e : String)
    → s.busy ≡ false
    → s.rows ≡ some rows
    → length (selected_idx_list s.selection) ≢ 0
    → targets rows s.selection ≡ r ∷ ts
    → length ts ≡ length ns + left
    → run (press_delete true ∷ (oks ns ++ answer 0 (deleted (err e)) ∷ [])) s ≡ record s {
      error = some e;
      sent = delete_requests (r ∷ ts) s.sent;
      pending = ignored left s.pending;
    }
unfolding run
partial_delete_is_stale s rows ts r ns left e idle loaded some_selected found size =
    let refusal = oks ns ++ answer 0 (deleted (err e)) ∷ [] in
    let sent = delete_requests (r ∷ ts) s.sent in
    let started = record s { busy = true; error = none; sent = sent } in
    ap (run refusal) (delete_starts s rows ts r idle loaded some_selected found)
    ∙ rw size (partial_delete_from started (suc (length ns + left)) left ns e s.pending)
    ∙ ap (λ b. record s { busy = b; error = some e; sent = sent; pending = ignored left s.pending })
        (sym idle)

abbrev pub more_count : Option ℕ → ℕ
more_count none = 0
more_count (some n) = n

more_cases :
    (n : ℕ)
    → ((n ≤ 10) × ((if ltb 10 n then some (n - 10) else none) ≡ none))
      ⊎ ((k : ℕ) × (n ≡ 10 + suc k) × ((if ltb 10 n then some (n - 10) else none) ≡ some (suc k)))
more_cases n = elim (Bool-cases (ltb 10 n)) [
  | inl more ↦
      let size : n ≡ 10 + suc (n - 11) = ground arith in
      let rest : n - 10 ≡ suc (n - 11) = ground arith in inr (n - 11, size, rw (more, rest) refl)
  | inr no_more ↦ inl (ground arith, rw no_more refl)
]

-- The question names at most ten rows. If there are no more it counts none, and if there are more it
-- counts, by a number that is not 0, those that it does not name.
pub confirm_counts :
    (ts : List Version)
    → (length (confirm_lines ts) ≤ 10)
      × (length (confirm_lines ts) + more_count (confirm_more ts) ≡ length ts)
      × (((length ts ≤ 10) × (confirm_more ts ≡ none))
          ⊎ ((k : ℕ) × (length ts ≡ 10 + suc k) × (confirm_more ts ≡ some (suc k))))
unfolding confirm_lines confirm_more
confirm_counts ts =
    let (few, all) : (length (confirm_lines ts) ≤ 10)
        × (length (confirm_lines ts) + more_count (confirm_more ts) ≡ length ts) =
      rw (length-map (take 10 ts) confirm_line) (ground (arith, length-take 10 ts)) in
    (few, all, more_cases (length ts))
