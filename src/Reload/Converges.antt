-- ===== src/Reload/Converges.antt =====
-- internal/design/syncer.go and internal/resource/syncer.go: what a reload at one server brings about at all of
-- them, whatever reloads and deliveries follow in whatever order.
use future_was.Base.{
  All-mono, All-get_elem?, ℕ, zero, suc, String, str_eq, Bool, true, false, not, ◌&&◌, ◌||◌, Option,
  none, some, List, [], ◌∷◌, ◌++◌, get_elem?, All, ◌≡◌, refl, ap, subst, ◌⊎◌, inl, inr, Bool-cases,
  arith,
}
use future_was.Base.Trim.{is_empty}
use future_was.Base.Runs.{run_by}
use future_was.Reload.{
  Server, Loaded, Fleet, Event, change, trigger, deliver, enqueue, publish, change_at, reload,
  announce, trigger_by, trigger_at, read_next, receive, step,
}

-- Only reloads and deliveries.
abbrev pub IsQuiet : {Env : Type 0} → List (Event Env) → Type 0
IsQuiet [] = Unit
IsQuiet (change env ∷ es) = ⊥
IsQuiet (_ ∷ es) = IsQuiet es

abbrev pub is_own : String → String → Bool
is_own payload id = str_eq payload id && not (is_empty id)

-- Some message is to be read that the server has not sent itself.
abbrev pub has_foreign : String → List String → Bool
has_foreign id [] = false
has_foreign id (payload ∷ rest) = not (is_own payload id) || has_foreign id rest

has_foreign-append :
    (id payload : String) (inbox : List String)
    → has_foreign id (inbox ++ payload ∷ []) ≡ (has_foreign id inbox || not (is_own payload id))
has_foreign-append id payload [] = ground arith
has_foreign-append id payload (p ∷ inbox) = ground (arith, has_foreign-append id payload inbox)

module _ {S : Type 0} where
  -- No other server than that of the place has the id.
  abbrev pub IsAlone : String → ℕ → List (Server S) → Type 0
  IsAlone id i [] = Unit
  IsAlone id zero (s ∷ servers) = All (λ r. str_eq id r.self_id ≡ false) servers
  IsAlone id (suc i) (s ∷ servers) = (str_eq id s.self_id ≡ false) × IsAlone id i servers

  All-change_at :
      (P : Server S → Type 0) (f : Server S → Server S)
      → ((s : Server S) → P s → P (f s))
      → (i : ℕ) (servers : List (Server S)) → All P servers
      → All P (change_at f i servers)
  All-change_at P f keeps i [] h = tt
  All-change_at P f keeps zero (s ∷ servers) h = (keeps s h.0, h.1)
  All-change_at P f keeps (suc i) (s ∷ servers) h = (h.0, All-change_at P f keeps i servers h.1)

  All-publish :
      (P Q : Server S → Type 0) (payload : String)
      → ((s : Server S) → P s → Q (enqueue payload s))
      → (servers : List (Server S)) → All P servers
      → All Q (publish payload servers)
  All-publish P Q payload keeps [] h = tt
  All-publish P Q payload keeps (s ∷ servers) h =
      (keeps s h.0, All-publish P Q payload keeps servers h.1)

module _ {Env S : Type 0} (load : Env → S → Loaded S) (env : Env) (target : S) where
  -- A load from the source has no error, and leaves the same whatever the store was.
  abbrev pub IsLoadable : Type 0
  IsLoadable = (s : S) → load env s ≡ record { store = target; fine = true }

  -- The store is that of the source, or a message will bring it about.
  abbrev IsCurrent : Server S → Type 0
  IsCurrent s = (s.store ≡ target) ⊎ (has_foreign s.self_id s.inbox ≡ true)

  enqueue-IsCurrent :
      (payload : String) (s : Server S) → IsCurrent s → IsCurrent (enqueue payload s)
  enqueue-IsCurrent payload s (inl e) = inl e
  enqueue-IsCurrent payload s (inr f) =
      inr (ground (arith, has_foreign-append s.self_id payload s.inbox))

  module _ (loadable : IsLoadable) where
    reload-store : (s : Server S) → (reload load env s).store ≡ target
    reload-store s = ap (λ r. r.store) (loadable s.store)

    read_next-IsCurrent :
        (inbox : List String) (s : Server S)
        → s.inbox ≡ inbox
        → IsCurrent s
        → IsCurrent (read_next load env inbox s)
    read_next-IsCurrent [] s e h = h
    read_next-IsCurrent (payload ∷ rest) s e h = elim (Bool-cases (is_own payload s.self_id)) [
      | inl own ↦ rw own (elim h [
        | inl same ↦ inl same
        | inr f ↦ let f' = subst (λ l. has_foreign s.self_id l ≡ true) e f in inr (ground arith)
      ])
      | inr other ↦ rw other (inl (reload-store (record s { inbox = rest })))
    ]

    announce-IsCurrent :
        (r : Loaded S) (published : Bool) (s : Server S) (servers : List (Server S))
        → All IsCurrent servers
        → All IsCurrent (announce load r published s servers)
    announce-IsCurrent r published s servers h = elim (Bool-cases (r.fine && published)) [
      | inl sent ↦
          rw sent
            (All-publish IsCurrent IsCurrent s.self_id (enqueue-IsCurrent s.self_id) servers h)
      | inr silent ↦ rw silent h
    ]

    trigger-IsCurrent :
        (published : Bool) (i : ℕ) (o : Option (Server S)) (servers : List (Server S))
        → All IsCurrent servers
        → All IsCurrent (trigger_by load env published i o servers)
    trigger-IsCurrent published i none servers h = h
    trigger-IsCurrent published i (some s) servers h =
        announce-IsCurrent (load env s.store) published s (change_at (reload load env) i servers)
          (All-change_at IsCurrent (reload load env) (λ r _. inl (reload-store r)) i servers h)

    event-IsCurrent :
        (e : Event Env) (w : Fleet Env S)
        → IsQuiet (e ∷ [])
        → w.env ≡ env
        → All IsCurrent w.servers
        → (step load e w).env ≡ env × All IsCurrent (step load e w).servers
    unfolding step trigger_at
    event-IsCurrent (change _) w quiet at h = elim quiet [ ]
    event-IsCurrent (trigger i published) w quiet at h =
        (at, rw at (trigger-IsCurrent published i (get_elem? w.servers i) w.servers h))
    event-IsCurrent (deliver i) w quiet at h = (
      at,
      rw at (
          All-change_at IsCurrent (receive load env) (λ s. read_next-IsCurrent s.inbox s refl) i
            w.servers h),
    )

    other-IsCurrent :
        (id : String) (r : Server S) → str_eq id r.self_id ≡ false → IsCurrent (enqueue id r)
    other-IsCurrent id r apart = inr (ground (arith, has_foreign-append r.self_id id r.inbox))

    -- The reload at the server of a place, with its message.
    starts :
        (i : ℕ) (servers : List (Server S)) {s : Server S}
        → get_elem? servers i ≡ some s
        → IsAlone s.self_id i servers
        → All IsCurrent (publish s.self_id (change_at (reload load env) i servers))
    starts zero (r ∷ servers) {s = s} at alone = (
      inl (reload-store r),
      All-publish (λ o. str_eq s.self_id o.self_id ≡ false) IsCurrent s.self_id
          (other-IsCurrent s.self_id) servers alone,
    )
    starts (suc i) (r ∷ servers) {s = s} at (apart, alone) =
        (other-IsCurrent s.self_id r apart, starts i servers at alone)
    starts i [] at alone = tt

    events-IsCurrent :
        (es : List (Event Env)) (w : Fleet Env S)
        → IsQuiet es
        → w.env ≡ env
        → All IsCurrent w.servers
        → All IsCurrent (run_by (step load) es w).servers
    unfolding run_by
    events-IsCurrent [] w quiet at h = h
    events-IsCurrent (change _ ∷ es) w quiet at h = elim quiet [ ]
    events-IsCurrent (trigger i published ∷ es) w quiet at h =
        let (at', h') = event-IsCurrent (trigger i published) w tt at h in
        events-IsCurrent es (step load (trigger i published) w) quiet at' h'
    events-IsCurrent (deliver i ∷ es) w quiet at h =
        let (at', h') = event-IsCurrent (deliver i) w tt at h in
        events-IsCurrent es (step load (deliver i) w) quiet at' h'

    -- After a reload at a server whose id no other has, and whose message the channel has taken, and
    -- after any reloads and deliveries that follow while the source is the same and can be loaded:
    -- every server that has no message left to read has the store that a load leaves.
    reload-All :
        (i : ℕ) (es : List (Event Env)) (servers : List (Server S)) {s : Server S}
        → get_elem? servers i ≡ some s
        → IsAlone s.self_id i servers
        → IsQuiet es
        → let w : Fleet Env S = record { env = env; servers = servers } in
          All
            (λ r. r.inbox ≡ [] → r.store ≡ target)
            (run_by (step load) (trigger i true ∷ es) w).servers
    unfolding run_by step trigger_at
    reload-All i es servers {s = s} at alone quiet =
        let w : Fleet Env S = record { env = env; servers = servers } in
        let w' = step load (trigger i true) w in
        let told : All IsCurrent w'.servers =
          rw (at, loadable s.store) (starts i servers at alone) in
        All-mono IsCurrent (λ r. r.inbox ≡ [] → r.store ≡ target) (run_by (step load) es w').servers
          (λ r c empty. elim c [
            | inl same ↦ same
            | inr f ↦
                let none_left = subst (λ l. has_foreign r.self_id l ≡ true) empty f in absurd (cc)
          ])
          (events-IsCurrent es w' quiet refl told)

    pub reloaded :
        (i : ℕ) (es : List (Event Env)) (servers : List (Server S)) {s : Server S}
        → get_elem? servers i ≡ some s
        → IsAlone s.self_id i servers
        → IsQuiet es
        → (k : ℕ) {r : Server S}
        → let w : Fleet Env S = record { env = env; servers = servers } in
          get_elem? (run_by (step load) (trigger i true ∷ es) w).servers k ≡ some r
          → r.inbox ≡ []
          → r.store ≡ target
    reloaded i es servers at alone quiet k found =
        let w : Fleet Env S = record { env = env; servers = servers } in
        All-get_elem? (λ r. r.inbox ≡ [] → r.store ≡ target)
          (run_by (step load) (trigger i true ∷ es) w).servers k found
          (reload-All i es servers at alone quiet)
