-- ===== src/App/Links.antt =====
-- The links of the header, opened by hand: from the address to the page.
use future_was.Base.{ℕ, String, Bool, ◌∙◌, true, List, [], ◌∷◌, map, codes, str_eq, All, ◌≡◌, refl}
use future_was.Server.Ui.{
  Stat, file, missing, index_html, content, serve_ui, contains_dot_dot, has_suffix, ui_falls_back,
  or_whole, after,
}
use future_was.App.{
  Screen, clock_page, version_page, migrations_page, is_listed, routes, nav_items, screen_at,
  location_of, links_lead_to_pages, settled,
}

-- The name below the console that a link has.
abbrev pub name_of : String → List ℕ
name_of to = or_whole (codes to) (after (codes "/") (codes to))

-- The links of the header with the page that each has to open.
abbrev pub pages : List (String × Screen)
pages = ("/clock", clock_page) ∷ ("/version", version_page) ∷ ("/migrations", migrations_page) ∷ []

-- When the console is built and has no file by the name of a link, then the links of the header are
-- those of the clock, version and migrations pages, in this order, and the address of each is served
-- the first page of the console, which shows the page of the link, if the pattern of a route matches
-- its own path and no other of the table; the root shows the clock page, by one redirection.
pub links_open :
    (stat : List ℕ → Stat) (is_match : String → String → Bool)
    → stat index_html ≡ file
    → All (λ item. stat (name_of item.0) ≡ missing) nav_items
    → ((a b : String)
        → is_listed a routes ≡ true
        → is_listed b routes ≡ true
        → is_match a b ≡ str_eq a b)
    → (map (λ item. item.0) nav_items ≡ map (λ page. page.0) pages)
      × All
          (λ page.
            (serve_ui stat (codes (location_of page.0)) ≡ content index_html)
            × (screen_at is_match page.0 ≡ page.1))
          pages
      × (settled is_match (screen_at is_match "/") ≡ clock_page)
unfolding contains_dot_dot has_suffix
links_open stat is_match index absent exact =
    let (clock, version, migrations, root) = links_lead_to_pages is_match exact in
    (
      refl,
      (
        (ui_falls_back stat (codes "clock") index refl refl ∙ rw absent.0 refl, clock),
        (
          (ui_falls_back stat (codes "version") index refl refl ∙ rw absent.1.0 refl, version),
          (
            (
              ui_falls_back stat (codes "migrations") index refl refl ∙ rw absent.1.1.0 refl,
              migrations,
            ),
            tt,
          ),
        ),
      ),
      root,
    )
