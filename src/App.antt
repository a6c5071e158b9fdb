-- ===== src/App.antt =====
-- web/admin/src/App.tsx: the pages by their paths, below the base name of main.tsx. That
-- a path matches the pattern of a route is the business of React Router, a parameter here.
pub mod Settles
pub mod Links
pub mod Dev
mod Tests
use future_was.Base.{
  String, Bool, true, false, Option, none, some, List, [], ◌∷◌, if◌then◌else◌, template, str_eq,
  ◌≡◌, refl, ◌||◌,
}

pub data Screen : Type 0 where
  clock_page version_page migrations_page not_found : Screen
  redirect : String → Screen

-- The routes but the last, `*`, which matches what no other does.
abbrev pub routes : List (String × Screen)
routes =
    ("/", redirect "/clock")
    ∷ ("/clock", clock_page)
    ∷ ("/version", version_page)
    ∷ ("/migrations", migrations_page)
    ∷ []

-- The links of the header, with their texts.
abbrev pub nav_items : List (String × String)
nav_items = ("/clock", "시간 이동") ∷ ("/version", "버전 관리") ∷ ("/migrations", "DB 마이그레이션") ∷ []

-- `className` of `NavItem`
unfoldable pub nav_class : Bool → String
nav_class is_active = template (
    "rounded px-2 py-1 transition "
    ∷ (if is_active
        then "bg-slate-100 text-slate-900"
        else "text-slate-400 hover:bg-slate-800 hover:text-slate-100")
    ∷ [])

-- A `NavItem`: where its link leads, its text and its class.
pub record NavLink : Type 0 where
  pub to : String
  pub children : String
  pub class : String

-- The header, and what is shown below it.
pub record View : Type 0 where
  pub title : String
  pub nav : List NavLink
  pub main : Screen

unfoldable pub nav_links : (String → Bool) → List (String × String) → List NavLink
unfolding nav_class
nav_links is_active [] = []
nav_links is_active ((to, text) ∷ items) =
    record { to = to; children = text; class = nav_class (is_active to) }
    ∷ nav_links is_active items

-- `basename`
abbrev pub basename : String
basename = "/admin/ui"

-- Where the browser is when the router is at a path.
abbrev pub location_of : String → String
location_of path = template (basename ∷ path ∷ [])

abbrev pub is_listed : String → List (String × Screen) → Bool
is_listed path [] = false
is_listed path ((pattern_of, _) ∷ more) = str_eq pattern_of path || is_listed path more

module _ (is_match : String → String → Bool) where
  abbrev pub find_route : String → List (String × Screen) → Screen
  find_route path [] = not_found
  find_route path ((pattern_of, screen) ∷ more) =
      if is_match pattern_of path then screen else find_route path more

  -- What is shown at a path.
  unfoldable pub screen_at : String → Screen
  screen_at path = find_route path routes

  -- A screen that stays, where one that redirects shows the screen of its target.
  abbrev pub settled : Screen → Screen
  unfolding screen_at
  settled (redirect target) = screen_at target
  settled screen = screen

  -- `App` at a path; which links are active there is said by the router.
  unfoldable pub view : (String → String → Bool) → String → View
  unfolding screen_at nav_links
  view is_active path = record {
    title = "FNB Admin";
    nav = nav_links (is_active path) nav_items;
    main = screen_at path;
  }

  -- If the pattern of a route matches its own path and no other of the table, then each link of the
  -- header leads to its page, and the root to the clock page, by one redirection.
  pub links_lead_to_pages :
      ((a b : String)
        → is_listed a routes ≡ true
        → is_listed b routes ≡ true
        → is_match a b ≡ str_eq a b)
      → (screen_at "/clock" ≡ clock_page)
        × (screen_at "/version" ≡ version_page)
        × (screen_at "/migrations" ≡ migrations_page)
        × (settled (screen_at "/") ≡ clock_page)
  unfolding screen_at
  links_lead_to_pages exact =
      let clock : screen_at "/clock" ≡ clock_page =
        rw (exact "/" "/clock" refl refl, exact "/clock" "/clock" refl refl) refl in
      let version : screen_at "/version" ≡ version_page =
        rw
          (
            exact "/" "/version" refl refl,
            exact "/clock" "/version" refl refl,
            exact "/version" "/version" refl refl,
          )
          refl in
      let migrations : screen_at "/migrations" ≡ migrations_page =
        rw
          (
            exact "/" "/migrations" refl refl,
            exact "/clock" "/migrations" refl refl,
            exact "/version" "/migrations" refl refl,
            exact "/migrations" "/migrations" refl refl,
          )
          refl in
      (clock, version, migrations, rw (exact "/" "/" refl refl) clock)
