-- ===== src/Reload/Design/Serving.antt =====
-- What the store of designs serves after a load, from the rows of the table alone.
use future_was.Base.{
  String, str_eq, Bool, true, false, not, ◌&&◌, ◌||◌, Option, none, some, List, [], ◌∷◌, ◌++◌, take,
  find, if◌then◌else◌, ◌≡◌, refl, ap, is_some, Option-cases, ◌∙◌, arith, inl, inr, Bool-cases,
}
use future_was.Api.{Version}
use future_was.Reload.Design.{
  has, Grouped, group_row, group_from, group_rows, Store, Source, get_by_client_version, put_all,
  load_each, replace_with, load_ordered, load_rows, load_active,
}

-- Some row gives the client version the server version.
abbrev pub pairs : String → String → List Version → Bool
pairs sv cv [] = false
pairs sv cv (v ∷ rows) =
    (str_eq sv v.server_version && str_eq cv v.client_version) || pairs sv cv rows

-- The first row of another server version.
abbrev pub runner_up : String → List Version → Option Version
runner_up sv rows = find (λ v. not (str_eq v.server_version sv)) rows

abbrev pub version_of : Option Version → List String
version_of none = []
version_of (some v) = v.server_version ∷ []

has-append : (x y : String) (ys : List String) → has x (ys ++ y ∷ []) ≡ (has x ys || str_eq x y)
has-append x y [] = ground arith
has-append x y (z ∷ ys) = ground (arith, has-append x y ys)

-- The client versions of a server version are those that some row gives it.
has-group :
    (sv cv : String) (rows : List Version) (g : Grouped)
    → has cv ((group_from rows g).cv_by_sv sv) ≡ (has cv (g.cv_by_sv sv) || pairs sv cv rows)
has-group sv cv [] g = ground arith
has-group sv cv (v ∷ rows) g =
    ground
      (arith, has-group sv cv rows (group_row v g), has-append cv v.client_version (g.cv_by_sv sv))

module _ {Catalog : Type 0} where
  put_all-lookup :
      (cvs : List String) (c : Catalog) (m : Store Catalog) (cv : String)
      → put_all cvs c m cv ≡ (if has cv cvs then some c else m cv)
  put_all-lookup [] c m cv = refl
  put_all-lookup (k ∷ cvs) c m cv =
      ground (arith, put_all-lookup cvs c (λ j. if str_eq j k then some c else m j) cv)

-- Two server versions that are found first stay.
two_stay :
    (a b : String) (rest : List String) (rows : List Version) (g : Grouped)
    → g.ordered ≡ a ∷ b ∷ rest
    → take 2 (group_from rows g).ordered ≡ a ∷ b ∷ []
two_stay a b rest [] g e = rw e refl
two_stay a b rest (v ∷ rows) g e = elim (Bool-cases (has v.server_version g.ordered)) [
  | inl seen ↦ two_stay a b rest rows (group_row v g) (rw seen e)
  | inr new ↦ two_stay a b (rest ++ v.server_version ∷ []) rows (group_row v g) (rw (new, e) refl)
]

one_stays :
    (a : String) (rows : List Version) (g : Grouped)
    → g.ordered ≡ a ∷ []
    → take 2 (group_from rows g).ordered ≡ a ∷ version_of (runner_up a rows)
one_stays a [] g e = rw e refl
one_stays a (v ∷ rows) g e = elim (Bool-cases (str_eq v.server_version a)) [
  | inl same ↦ rw same (one_stays a rows (group_row v g) (rw (e, same) refl))
  | inr other ↦ rw other (two_stay a v.server_version [] rows (group_row v g) (rw (e, other) refl))
]

module _ {Catalog : Type 0} where
  abbrev pub or_else : Option Catalog → Option Catalog → Option Catalog
  or_else none other = other
  or_else (some c) other = some c

  abbrev pub when : Bool → Option Catalog → Option Catalog
  when b o = if b then o else none

  -- The catalog of a version of the client by the latest server version, and by the one before it,
  -- `o`, which comes first.
  abbrev pub by_two : Source Catalog → (String → Bool) → String → Option Version → Option Catalog
  by_two src offers a none = when (offers a) (src.load a)
  by_two src offers a (some w) =
      or_else (when (offers w.server_version) (src.load w.server_version))
        (when (offers a) (src.load a))

  by_two-cong :
      (src : Source Catalog) (f g : String → Bool) (a : String) (o : Option Version)
      → ((sv : String) → f sv ≡ g sv)
      → by_two src f a o ≡ by_two src g a o
  by_two-cong src f g a none same = ground (arith, same a)
  by_two-cong src f g a (some w) same = ground (arith, same a, same w.server_version)

  load_each-by_two :
      (src : Source Catalog) (cvs : String → List String) (a : String) (o : Option Version)
      (store : Store Catalog) (cv : String)
      → let r = replace_with (load_each src cvs true (a ∷ version_of o) (λ _. none)) store in
        (r.fine ≡ is_some (src.load a))
        × (r.store cv
            ≡ (if is_some (src.load a) then by_two src (λ sv. has cv (cvs sv)) a o else store cv))
  load_each-by_two src cvs a none store cv = elim (Option-cases (src.load a)) [
    | inl failed ↦ rw failed (refl, refl)
    | inr (c, loaded) ↦ rw loaded (refl, put_all-lookup (cvs a) c (λ _. none) cv)
  ]
  load_each-by_two src cvs a (some w) store cv =
      let b = w.server_version in
      elim (Option-cases (src.load a)) [
        | inl failed ↦ rw failed (refl, refl)
        | inr (c, loaded) ↦ elim (Option-cases (src.load b)) [
          | inl skipped ↦
              rw (loaded, skipped) (refl, ground (arith, put_all-lookup (cvs a) c (λ _. none) cv))
          | inr (d, too) ↦
              rw (loaded, too)
                (
                  refl,
                  ground (
                    arith,
                    put_all-lookup (cvs b) d (put_all (cvs a) c (λ _. none)) cv,
                    put_all-lookup (cvs a) c (λ _. none) cv,
                  ),
                )
        ]
      ]

  load_ordered-eq :
      (src : Source Catalog) (cvs : String → List String) (ordered : List String) {a : String}
      {more : List String} (store : Store Catalog)
      → take 2 ordered ≡ a ∷ more
      → load_ordered src cvs ordered store
        ≡ replace_with (load_each src cvs true (a ∷ more) (λ _. none)) store
  load_ordered-eq src cvs [] store e = cc
  load_ordered-eq src cvs (sv ∷ svs) store e =
      ap (λ l. replace_with (load_each src cvs true l (λ _. none)) store) e

  -- Whether a load has no error: there are rows, and the first one's server version can be loaded.
  abbrev pub can_load : Source Catalog → Option (List Version) → Bool
  can_load src none = false
  can_load src (some []) = false
  can_load src (some (v ∷ rows)) = is_some (src.load v.server_version)

  abbrev pub expected : Source Catalog → Option (List Version) → String → Option Catalog
  expected src none cv = none
  expected src (some []) cv = none
  expected src (some (v ∷ rows)) cv =
      by_two src (λ sv. pairs sv cv (v ∷ rows)) v.server_version (runner_up v.server_version rows)

  -- A load of the designs has no error exactly when the query answers with a row and the catalog of the
  -- first row's server version can be loaded. Then each version of the client is served by the catalog
  -- of the second server version in the order of the rows, if that can be loaded and a row gives it to
  -- the client version; else by that of the first, if a row gives it; else by none. After an error
  -- each is served as before.
  pub load_active_serves :
      (src : Source Catalog) (store : Store Catalog) (cv : String)
      → let r = load_active src store in
        (r.fine ≡ can_load src src.active_rows)
        × (get_by_client_version r.store cv ≡ (
            if can_load src src.active_rows
            then expected src src.active_rows cv
            else get_by_client_version store cv))
  unfolding load_active group_rows
  load_active_serves src store cv = by_rows src.active_rows
    where
      by_rows :
          (answer : Option (List Version))
          → let r = load_rows src answer store in
            (r.fine ≡ can_load src answer)
            × (r.store cv ≡ (if can_load src answer then expected src answer cv else store cv))
      by_rows none = (refl, refl)
      by_rows (some []) = (refl, refl)
      by_rows (some (v ∷ rows)) =
          let a = v.server_version in
          let g = group_rows (v ∷ rows) in
          let first = group_row v (record { ordered = []; cv_by_sv = λ _. [] }) in
          let two = load_ordered-eq src g.cv_by_sv g.ordered store (one_stays a rows first refl) in
          let (fine, serves) = load_each-by_two src g.cv_by_sv a (runner_up a rows) store cv in
          let same =
            by_two-cong src (λ sv. has cv (g.cv_by_sv sv)) (λ sv. pairs sv cv (v ∷ rows)) a
              (runner_up a rows)
              (λ sv. has-group sv cv (v ∷ rows) (record { ordered = []; cv_by_sv = λ _. [] })) in
          rw two (fine, serves ∙ ap (λ x. if is_some (src.load a) then x else store cv) same)
