-- ===== src/App/Tests.antt =====
-- The routes, with a matching by equality of paths, and a session of the clock page to its rest.
use future_was.Base.{
  map, codes, if◌then◌else◌, ℕ, some, true, take_out, false, none, List, [], ◌∷◌, str_eq, All, ◌≡◌,
  refl, ◌⊎◌, inl, inr,
}
use future_was.Base.Int.{pos}
use future_was.Base.Results.{ok, err}
use future_was.Base.Runs.{run_by}
use future_was.Base.Awaits.{IsResponsive, answers, session, work}
use future_was.App.{nav_items, clock_page, screen_at, settled, location_of, nav_class, view}
use future_was.App.Links.{pages, links_open}
use future_was.Server.Ui.{Stat, file, missing, same, index_html, content, serve_ui}
use future_was.App.Settles.{clock, awaiting, console_settles}
use future_was.ClockPage.Settle.{fits}
use future_was.ClockPage.{Pending, getting, jumping, Page}
use future_was.ClockPage.Session.{
  Answer, got, jumped, Event, mount, type_user, press_apply, press_refresh,
}

-- A build that has its first page and one file beside it.
abbrev build : List ℕ → Stat
build name =
    if same name index_html then file else if same name (codes "favicon.svg") then file else missing

links_open_example :
    (map (λ item. item.0) nav_items ≡ map (λ page. page.0) pages)
    × All
        (λ page.
          (serve_ui build (codes (location_of page.0)) ≡ content index_html)
          × (screen_at str_eq page.0 ≡ page.1))
        pages
    × (settled str_eq (screen_at str_eq "/") ≡ clock_page)
links_open_example = links_open build str_eq refl (refl, (refl, (refl, tt))) (λ a b k l. refl)

-- The header at the page of the versions.
header_at_version :
    (view str_eq str_eq "/version").nav
    ≡ record { to = "/clock"; children = "시간 이동"; class = nav_class false }
      ∷ record { to = "/version"; children = "버전 관리"; class = nav_class true }
      ∷ record { to = "/migrations"; children = "DB 마이그레이션"; class = nav_class false }
      ∷ []
unfolding view
header_at_version = refl

-- A server that takes each jump and is then not reached.
abbrev reply_to : List Pending → Answer
reply_to (jumping ∷ _) = jumped (ok (record { add_second = pos 60; logical_time = "t" }))
reply_to _ = got (err "TypeError")

abbrev reply : Page → ℕ × Answer
reply s = (0, reply_to s.pending)

reply-IsResponsive : IsResponsive (awaiting none clock) reply
reply-IsResponsive s = from s.pending
  where
    from :
        (ps : List Pending)
        → (ps ≡ [])
          ⊎ ((p : Pending) × (rest : List Pending) × (take_out 0 ps ≡ some (p, rest))
              × (fits p (reply_to ps) ≡ true))
    from [] = inl refl
    from (jumping ∷ rest) = inr (jumping, rest, refl, refl)
    from (getting c ∷ rest) = inr (getting c, rest, refl, refl)

abbrev events : List Event
events = mount ∷ type_user "kim" ∷ press_apply ∷ press_refresh ∷ []

console_settles_example :
    let m = awaiting none clock in
    let s = session m events in
    let t = run_by m.step (answers m (work m s) reply s) s in
    (m.pending t ≡ []) × (m.busy t ≡ false)
console_settles_example = console_settles none clock events reply reply-IsResponsive
