-- ===== src/Game/Commit/Ends.antt =====
-- How the writes of a transaction end, and what a commit goes on with.
use future_was.Base.{
  ℕ, String, Bool, true, false, Option, none, some, List, [], ◌∷◌, template, ◌≡◌, refl, ◌⊎◌, inl,
  inr, Option-cases, subst,
}
use future_was.Game.Commit.{
  Write, Group, TxFaults, TxEnd, committed, rolled_back, unanswered, answer_commit, Outcome, done,
  failed, run_fns, finish, transaction, set_db, run_groups,
}
use future_was.Game.Commit.Groups.{}

pub TxEnd-cases :
    {H D : Type 0} (o : TxEnd H D)
    → ((h : H) × (d : D) × (o ≡ committed h d))
      ⊎ (((h : H) × (e : String) × (o ≡ rolled_back h e))
          ⊎ ((h : H) × (d : D) × (e : String) × (o ≡ unanswered h d e)))
TxEnd-cases (committed h d) = inl (h, d, refl)
TxEnd-cases (rolled_back h e) = inr (inl (h, e, refl))
TxEnd-cases (unanswered h d e) = inr (inr (h, d, e, refl))

pub Outcome-cases :
    {H D : Type 0} (o : Outcome H D)
    → ((h : H) × (d : D) × (o ≡ done h d)) ⊎ ((h : H) × (e : String) × (o ≡ failed h e))
Outcome-cases (done h d) = inl (h, d, refl)
Outcome-cases (failed h e) = inr (h, e, refl)

-- What holds of an end holds of an equal one.
pub done-subst :
    {H D : Type 0} (P : H → D → Type 0) (h h' : H) (d d' : D)
    → done h d ≡ done h' d'
    → P h d
    → P h' d'
done-subst P h h' d d' e p =
    let heap : h ≡ h' = cc in
    let base : d ≡ d' = cc in subst (λ x. P x d') heap (subst (P h) base p)

module _ {H D : Type 0} where
  -- The writes ran on the database, one after the other, from its first state to its last.
  abbrev pub Applied : List (Write H D) → D → D → Type 0
  Applied fns before after = (h : H) × (h' : H) × (run_fns fns h before ≡ done h' after)

  -- Writes that end have all ended.
  pub run_fns-cons :
      (fn : Write H D) (fns : List (Write H D)) (h h' : H) (d d' : D)
      → run_fns (fn ∷ fns) h d ≡ done h' d'
      → (h1 : H) × (d1 : D) × (fn h d ≡ done h1 d1) × (run_fns fns h1 d1 ≡ done h' d')
  unfolding run_fns
  run_fns-cons fn fns h h' d d' eq = elim (Outcome-cases (fn h d)) [
    | inl (h1, d1, ran) ↦ (h1, d1, ran, rw ran at eq)
    | inr (h1, e, lost) ↦ absurd (let stop = rw (lost, run_fns) at eq in cc)
  ]

  module _ (faults : TxFaults) where
    answer_commit-eq-committed :
        (o : Option String) (kept : Bool) (h h' : H) (d d' : D)
        → answer_commit faults o kept h d ≡ committed h' d'
        → done h d ≡ done h' d'
    answer_commit-eq-committed none kept h h' d d' eq =
        let heap : h ≡ h' = cc in let base : d ≡ d' = cc in cc
    answer_commit-eq-committed (some e) true h h' d d' eq = cc
    answer_commit-eq-committed (some e) false h h' d d' eq = cc

    answer_commit-eq-unanswered :
        (o : Option String) (kept : Bool) (h h' : H) (d d' : D) (e : String)
        → answer_commit faults o kept h d ≡ unanswered h' d' e
        → (done h d ≡ done h' d') × (kept ≡ true)
    answer_commit-eq-unanswered none kept h h' d d' e eq = cc
    answer_commit-eq-unanswered (some e') true h h' d d' e eq =
        let heap : h ≡ h' = cc in let base : d ≡ d' = cc in (cc, refl)
    answer_commit-eq-unanswered (some e') false h h' d d' e eq = cc

    finish-eq-committed :
        (db : ℕ) (o : Outcome H D) (h : H) (d : D)
        → finish faults db o ≡ committed h d
        → o ≡ done h d
    finish-eq-committed db (failed h' e) h d eq = cc
    finish-eq-committed db (done h' d') h d eq =
        answer_commit-eq-committed (faults.commit_error db) (faults.carried_out db) h' h d' d eq

    finish-eq-unanswered :
        (db : ℕ) (o : Outcome H D) (h : H) (d : D) (e : String)
        → finish faults db o ≡ unanswered h d e
        → (o ≡ done h d) × (faults.carried_out db ≡ true)
    finish-eq-unanswered db (failed h' e') h d e eq = cc
    finish-eq-unanswered db (done h' d') h d e eq =
        answer_commit-eq-unanswered (faults.commit_error db) (faults.carried_out db) h' h d' d e eq

    pub transaction-eq-committed :
        (db : ℕ) (fns : List (Write H D)) (h h' : H) (d d' : D)
        → transaction faults db fns h d ≡ committed h' d'
        → run_fns fns h d ≡ done h' d'
    unfolding transaction
    transaction-eq-committed db fns h h' d d' eq = elim (Option-cases (faults.begin_error db)) [
      | inl fine ↦ finish-eq-committed db (run_fns fns h d) h' d' (rw (fine, transaction) at eq)
      | inr (e, refused) ↦ absurd (let stop = rw (refused, transaction) at eq in cc)
    ]

    pub transaction-eq-unanswered :
        (db : ℕ) (fns : List (Write H D)) (h h' : H) (d d' : D) (e : String)
        → transaction faults db fns h d ≡ unanswered h' d' e
        → (run_fns fns h d ≡ done h' d') × (faults.carried_out db ≡ true)
    unfolding transaction
    transaction-eq-unanswered db fns h h' d d' e eq = elim (Option-cases (faults.begin_error db)) [
      | inl fine ↦ finish-eq-unanswered db (run_fns fns h d) h' d' e (rw (fine, transaction) at eq)
      | inr (e', refused) ↦ absurd (let stop = rw (refused, transaction) at eq in cc)
    ]

    pub run_groups-rolled_back :
        (g : Group H D) (gs : List (Group H D)) (h h' : H) (dbs : ℕ → D) (e : String)
        → transaction faults g.db g.fns h (dbs g.db) ≡ rolled_back h' e
        → run_groups faults (g ∷ gs) h dbs
          ≡ record { heap = h'; dbs = dbs; error = some (template ("uow commit: " ∷ e ∷ [])) }
    unfolding run_groups
    run_groups-rolled_back g gs h h' dbs e lost = rw (lost, run_groups) refl

    pub run_groups-unanswered :
        (g : Group H D) (gs : List (Group H D)) (h h' : H) (dbs : ℕ → D) (d' : D) (e : String)
        → transaction faults g.db g.fns h (dbs g.db) ≡ unanswered h' d' e
        → run_groups faults (g ∷ gs) h dbs ≡ record {
          heap = h';
          dbs = set_db g.db d' dbs;
          error = some (template ("uow commit: " ∷ e ∷ []));
        }
    unfolding run_groups
    run_groups-unanswered g gs h h' dbs d' e lost = rw (lost, run_groups) refl

    pub run_groups-committed :
        (g : Group H D) (gs : List (Group H D)) (h h' : H) (dbs : ℕ → D) (d' : D)
        → transaction faults g.db g.fns h (dbs g.db) ≡ committed h' d'
        → run_groups faults (g ∷ gs) h dbs ≡ run_groups faults gs h' (set_db g.db d' dbs)
    unfolding run_groups
    run_groups-committed g gs h h' dbs d' ran = rw (ran, run_groups) refl
