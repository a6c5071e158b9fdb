-- ===== src/VersionPage/Requests.antt =====
-- The requests that a session of the version page sends.
use future_was.Base.{
  ℕ, suc, zero, Bool, false, ◌||◌, List, [], ◌∷◌, take_out, All, ◌≡◌, arith, Bool-cases,
  Option-cases, inl, inr,
}
use future_was.Base.Runs.{run_by-keeps}
use future_was.Base.Trim.{trim, is_empty, all_white, is_empty-trim}
use future_was.Base.Results.{ok}
use future_was.Api.{
  Version, VersionCreateInput, HttpRequest, version_list, version_create, version_delete,
  version_reload,
}
use future_was.VersionPage.{
  Caller, nobody, Pending, listing, creating, deleting, Page, initial, refresh, on_create_press,
  on_delete_press, targets, deleted_all, delete_requests, delete_start,
}
use future_was.VersionPage.Session.{
  Answer, listed, created, deleted, resume, Event, mount, press_create, press_reload, press_refresh,
  press_delete, answer, step, run,
}

-- The requests that the page may send.
pub data Allowed : HttpRequest → Type 0 where
  a_list : Allowed version_list
  a_reload : Allowed version_reload
  a_create :
      (v : VersionCreateInput)
      → all_white v.client_version ≡ false
      → all_white v.server_version ≡ false
      → Allowed (version_create v)
  a_delete : (idx : ℕ) → Allowed (version_delete idx)

abbrev IsAllowed : Page → Type 0
IsAllowed s = All Allowed s.sent

create-IsAllowed : (s : Page) → IsAllowed s → IsAllowed (on_create_press s)
unfolding on_create_press
create-IsAllowed s h =
    elim (Bool-cases
      (is_empty (trim s.input.client_version) || is_empty (trim s.input.server_version))) [
        | inl blank ↦ rw blank h
        | inr filled ↦
            let client = is_empty-trim s.input.client_version in
            let server = is_empty-trim s.input.server_version in
            rw filled (a_create s.input (ground arith) (ground arith), h)
      ]

delete_requests-IsAllowed :
    (ts : List Version) (sent : List HttpRequest)
    → All Allowed sent
    → All Allowed (delete_requests ts sent)
delete_requests-IsAllowed [] sent h = h
delete_requests-IsAllowed (r ∷ ts) sent h = delete_requests-IsAllowed ts _ (a_delete r.idx, h)

refresh-IsAllowed : (c : Caller) (s : Page) → IsAllowed s → IsAllowed (refresh c s)
unfolding refresh
refresh-IsAllowed c s h = (a_list, h)

delete_start-IsAllowed :
    (ts : List Version) (s : Page) → IsAllowed s → IsAllowed (delete_start ts s)
unfolding deleted_all
delete_start-IsAllowed [] s h = (a_list, h)
delete_start-IsAllowed (r ∷ ts) s h = delete_requests-IsAllowed (r ∷ ts) s.sent h

delete-IsAllowed : (c : Bool) (s : Page) → IsAllowed s → IsAllowed (on_delete_press c s)
unfolding on_delete_press
delete-IsAllowed c s h = elim (Option-cases s.rows) [
  | inl unloaded ↦ rw (unloaded, on_delete_press) h
  | inr (rows, loaded) ↦ ground (arith, delete_start-IsAllowed (targets rows s.selection) s h)
]

resume-IsAllowed :
    (p : Pending) (a : Answer) (before s : Page)
    → IsAllowed before
    → IsAllowed s
    → IsAllowed (resume p a before s)
unfolding resume
resume-IsAllowed (listing nobody) (listed (ok r)) before s h k = k
resume-IsAllowed creating (created (ok v)) before s h k = (a_list, k)
resume-IsAllowed (deleting n zero) (deleted (ok v)) before s h k = (a_list, k)
resume-IsAllowed (deleting n (suc zero)) (deleted (ok v)) before s h k = (a_list, k)
resume-IsAllowed p a before s h k = ground arith

step-IsAllowed : (e : Event) (s : Page) → IsAllowed s → IsAllowed (step e s)
unfolding step
step-IsAllowed (answer i a) s h = elim (Option-cases (take_out i s.pending)) [
  | inl nothing ↦ rw nothing h
  | inr ((p, rest), found) ↦ rw found (resume-IsAllowed p a s (record s { pending = rest }) h h)
]
step-IsAllowed (press_delete c) s h = ground (arith, delete-IsAllowed c s h)
step-IsAllowed press_create s h = ground (arith, create-IsAllowed s h)
step-IsAllowed mount s h = refresh-IsAllowed nobody s h
step-IsAllowed press_refresh s h = ground (arith, refresh-IsAllowed nobody s h)
step-IsAllowed press_reload s h = elim (Bool-cases s.busy) [
  | inl busy ↦ rw busy h
  | inr idle ↦ rw idle (a_reload, h)
]
step-IsAllowed e s h = h

run-IsAllowed : (es : List Event) (s : Page) → IsAllowed s → IsAllowed (run es s)
unfolding run
run-IsAllowed es s h = run_by-keeps step IsAllowed step-IsAllowed es s h

-- Whatever the operator does and the server answers, every request of the page is one of the four,
-- and a creation never has a `client_version` or a `server_version` of white space only.
pub run-sent-Allowed : (es : List Event) → All Allowed (run es initial).sent
run-sent-Allowed es = run-IsAllowed es initial (unfold initial in tt)
