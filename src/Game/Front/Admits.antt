-- ===== src/Game/Front/Admits.antt =====
-- internal/handler/dispatch.go: a request is handled under its conditions, or refused with nothing changed.
use future_was.Base.{
  ap, if_cases, ℕ, String, str_eq, eq_iff, Bool, true, false, ◌||◌, Option, none, some, List, ◌==◌,
  ==_iff, ◌≡◌, ◌≢◌, ◌⊎◌, refl, inl, inr, arith, Bool-cases,
}
use future_was.Base.Trim.{is_empty}
use future_was.Game.Items.{Item, Table}
use future_was.Game.Dispatch.{CommitFaults, Response, dispatch}
use future_was.Game.Front.{
  GameRequest, ActionDef, Catalog, Gateway, verify_and_refresh, game_error, locked, verified,
  authenticated, routed, looked_up, opened, dispatch_body,
}

-- The user has a session by the token of the request, or the action needs none.
abbrev pub IsKnown : Gateway → GameRequest → ActionDef → Type 0
IsKnown g req def =
    (def.no_auth ≡ true)
    ⊎ ((req.user_id ≢ 0) × (g.stored_token req.user_id ≡ some (some req.session_token)))

-- What a request has to have to be handled.
abbrev pub IsAdmitted : Gateway → GameRequest → ActionDef → Catalog → Type 0
IsAdmitted g req def catalog =
    (g.read ≡ some (some req))
    × (g.registry req.action ≡ some def)
    × (g.catalogs req.client_version ≡ some catalog)
    × IsKnown g req def
    × ((req.user_id ≡ 0) ⊎ (g.acquires req.user_id ≡ true))

verified-true :
    (token : String) (answer : Option (Option String))
    → verify_and_refresh token answer ≡ some true
    → answer ≡ some (some token)
verified-true token none e = ground arith
verified-true token (some none) e = ground arith
verified-true token (some (some stored)) e =
    let same : str_eq stored token ≡ true = ground arith in
    ap (λ s. some (some s)) ((eq_iff stored token).0 same)

module _ (shard : ℕ) (f : CommitFaults) (now : ℕ) (g : Gateway) (t : Table)
    (cache : Option (List Item)) where
  -- Nothing is changed, and the code is not that of a success.
  abbrev pub IsRefused : Response → Type 0
  IsRefused r = (r.table ≡ t) × (r.cache ≡ cache) × (r.code ≢ 200)

  abbrev pub IsHandled : Response → Type 0
  IsHandled r =
      (req : GameRequest) × (def : ActionDef) × (catalog : Catalog) × IsAdmitted g req def catalog
      × (r ≡ dispatch shard f catalog now req.user_id (def.handler req.body) t cache)

  abbrev Outcome : Response → Type 0
  Outcome r = IsHandled r ⊎ IsRefused r

  refused : (code : ℕ) → code ≢ 200 → Outcome (game_error shard f now g t cache code)
  refused code other = inr (refl, refl, other)

  module _ (req : GameRequest) (read : g.read ≡ some (some req)) where
    module _ (def : ActionDef) (listed : g.registry req.action ≡ some def) where
      module _ (catalog : Catalog) (found : g.catalogs req.client_version ≡ some catalog) where
        locked-Outcome : IsKnown g req def → Outcome (locked shard f now g t cache req def catalog)
        unfolding dispatch
        locked-Outcome known = elim (Bool-cases (req.user_id == 0)) [
          | inl zero ↦
              let nobody = (==_iff req.user_id 0).0 zero in
              rw zero (inl (req, def, catalog, (read, listed, found, known, inl nobody), refl))
          | inr user ↦ elim (Bool-cases (g.acquires req.user_id)) [
            | inl taken ↦
                rw (user, taken)
                  (inl (req, def, catalog, (read, listed, found, known, inr taken), refl))
            | inr busy ↦ rw (user, busy) (refused 429 (ground arith))
          ]
        ]

        verified-Outcome :
            (o : Option Bool)
            → verify_and_refresh req.session_token (g.stored_token req.user_id) ≡ o
            → req.user_id ≢ 0
            → Outcome (verified shard f now g t cache o req def catalog)
        verified-Outcome none e user = refused 500 (ground arith)
        verified-Outcome (some false) e user = refused 401 (ground arith)
        verified-Outcome (some true) e user =
            locked-Outcome
              (inr (user, verified-true req.session_token (g.stored_token req.user_id) e))

        authenticated-Outcome : Outcome (authenticated shard f now g t cache req def catalog)
        authenticated-Outcome =
            if_cases Outcome def.no_auth (λ free. locked-Outcome (inl free))
              (λ needed.
                if_cases Outcome (req.user_id == 0 || is_empty req.session_token)
                  (λ missing. refused 401 (ground arith))
                  (λ there.
                    verified-Outcome
                      (verify_and_refresh req.session_token (g.stored_token req.user_id)) refl
                      (λ e. absurd (ground arith))))

      routed-Outcome :
          (o : Option Catalog)
          → g.catalogs req.client_version ≡ o
          → Outcome (routed shard f now g t cache req def o)
      routed-Outcome none e = refused 4001 (ground arith)
      routed-Outcome (some catalog) e = authenticated-Outcome catalog e

    looked_up-Outcome :
        (o : Option ActionDef)
        → g.registry req.action ≡ o
        → Outcome (looked_up shard f now g t cache req o)
    looked_up-Outcome none e = refused 400 (ground arith)
    looked_up-Outcome (some def) e = routed-Outcome def e (g.catalogs req.client_version) refl

  opened-Outcome :
      (o : Option (Option GameRequest)) → g.read ≡ o → Outcome (opened shard f now g t cache o)
  opened-Outcome none e = refused 400 (ground arith)
  opened-Outcome (some none) e = refused 400 (ground arith)
  opened-Outcome (some (some req)) e = looked_up-Outcome req e (g.registry req.action) refl

  -- A request is handled by the dispatch for its user with the calls of its action on the catalog of its
  -- client version, and then its action is known, that client version has a catalog, the user has a
  -- session by the token of the request or the action needs none, and the user's lock is taken or
  -- there is no user; or it is refused, with the table and the cache as they were and a code other
  -- than 200.
  pub front_decides :
      IsHandled (dispatch_body shard f now g t cache)
      ⊎ IsRefused (dispatch_body shard f now g t cache)
  unfolding dispatch_body
  front_decides = opened-Outcome g.read refl
