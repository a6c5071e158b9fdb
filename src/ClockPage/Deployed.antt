-- ===== src/ClockPage/Deployed.antt =====
-- The clock page with the server: a preset from the press of its button to the end of the refresh.
use future_was.Base.{
  Bool, String, true, false, none, List, [], ◌∷◌, if◌then◌else◌, ◌≡◌, refl, sym, ap, ◌∙◌, subst,
  Bool-cases, if_cases, inl, inr,
}
use future_was.Base.Int.{ℤ, pos, ◌+ℤ◌, scale}
use future_was.Base.Results.{ok, err}
use future_was.Base.Trim.{trim, is_empty, all_white, is_empty-trim}
use future_was.Api.{
  Response, responded, request, ClockInfo, ClockJumpResult, Json, HttpRequest, clock_jump,
}
use future_was.Server.Clock.{
  Server, Reply, done, bad_request, internal_error, jump, offset_sec, wrap_64, second, IsInRange,
  offset_roundtrip,
}
use future_was.ClockPage.{Preset, jumping, Page, apply, on_preset, offset_of}
use future_was.ClockPage.Session.{got, jumped, press_preset, answer, step}

-- What the server reports of its clock; the three texts are of no matter here.
abbrev clock_info : Server → ClockInfo
clock_info srv = record {
  offset_sec = offset_sec srv;
  offset_human = "";
  real_time = "";
  logical_time = "";
}

-- The response to a jump; the text of an error of the database is of no matter here.
abbrev response_of : Reply → Response ClockJumpResult
response_of (done z) = record {
  status = 200;
  status_text = "OK";
  text = ok "";
  json = ok (record { add_second = z; logical_time = "" });
}
response_of bad_request = record {
  status = 400;
  status_text = "Bad Request";
  text = ok "{\"error\":\"user required\"}\n";
  json = err "";
}
response_of internal_error = record {
  status = 500;
  status_text = "Internal Server Error";
  text = ok "";
  json = err "";
}

pub record System : Type 0 where
  pub page : Page
  pub server : Server

abbrev head_body : List HttpRequest → List (String × Json)
head_body [] = []
head_body (r ∷ _) = r.body

-- The server handles the request that was sent last, the page takes the answer, and then that to its
-- own refresh, if there is one; `stored` is whether the row of the jump can be stored.
unfoldable pub exchange : Bool → System → System
unfolding request
exchange stored sys =
    let (srv, reply) = jump stored (head_body sys.page.sent) sys.server in
    record {
      page =
          step (answer 0 (got (ok (clock_info srv))))
            (step (answer 0 (jumped (request (responded (response_of reply))))) sys.page);
      server = srv;
    }

unfoldable pub preset : Bool → Preset → System → System
unfolding exchange
preset stored p sys = exchange stored (record sys { page = step (press_preset p) sys.page })

-- The offset that a preset asks for.
abbrev pub preset_offset : Preset → ℤ → ℤ
preset_offset p z = if p.absolute then pos 0 else z +ℤ p.sec

-- The offset after a preset, whose jump is stored or not.
abbrev pub next_offset : Bool → Preset → ℤ → ℤ
next_offset stored p z = if stored then preset_offset p z else z

-- An idle page with a user, which shows the offset of the server.
pub record IsSettled (sys : System) (z : ℤ) : Type 0 where
  pub idle : sys.page.busy ≡ false
  pub user : all_white sys.page.user ≡ false
  pub quiet : sys.page.pending ≡ []
  pub shown : offset_of sys.page.info ≡ z
  pub actual : offset_sec sys.server ≡ z

abbrev started : ℤ → Page → Page
started z s = record s {
  busy = true;
  error = none;
  pending = jumping ∷ s.pending;
  sent = clock_jump z (trim s.user) ∷ s.sent;
}

apply-starts : (z : ℤ) (s : Page) → all_white s.user ≡ false → apply z s ≡ started z s
unfolding apply
apply-starts z s user = let filled = is_empty-trim s.user ∙ user in rw filled

preset-starts :
    (p : Preset) (s : Page)
    → s.busy ≡ false
    → all_white s.user ≡ false
    → step (press_preset p) s ≡ started (preset_offset p (offset_of s.info)) s
unfolding step
preset-starts p s idle user =
    if_cases (λ t. t ≡ started (preset_offset p (offset_of s.info)) s) s.busy (λ busy. cc)
      (λ _.
        unfold on_preset in
        elim (Bool-cases p.absolute) [
          | inl absolute ↦ rw absolute (apply-starts (pos 0) s user)
          | inr relative ↦ rw relative (apply-starts (offset_of s.info +ℤ p.sec) s user)
        ])

abbrev jumped_server : ℤ → String → Server → Server
jumped_server z user srv = record {
  offset_ns = wrap_64 (scale z second);
  rows = (z, user) ∷ srv.rows;
}

jump-stores :
    (z : ℤ) (user : String) (srv : Server)
    → is_empty user ≡ false
    → jump true (clock_jump z user).body srv ≡ (jumped_server z user srv, done z)
unfolding jump
jump-stores z user srv filled = rw filled

jump-fails :
    (z : ℤ) (user : String) (srv : Server)
    → is_empty user ≡ false
    → jump false (clock_jump z user).body srv ≡ (srv, internal_error)
unfolding jump
jump-fails z user srv filled = rw filled

-- A jump that cannot be stored ends with an error, and the page shows the offset that it has shown.
exchange-fails :
    (y z : ℤ) (s : Page) (srv : Server)
    → all_white s.user ≡ false
    → s.pending ≡ []
    → offset_of s.info ≡ z
    → offset_sec srv ≡ z
    → IsSettled (exchange false (record { page = started y s; server = srv })) z
unfolding exchange
exchange-fails y z s srv user quiet shown actual =
    let filled = is_empty-trim s.user ∙ user in
    rw (jump-fails y (trim s.user) srv filled) (
      unfold step in
      rw quiet (record { idle = refl; user = user; quiet = refl; shown = shown; actual = actual }))

exchange-settles :
    (z : ℤ) (s : Page) (srv : Server)
    → all_white s.user ≡ false
    → s.pending ≡ []
    → IsInRange z
    → IsSettled (exchange true (record { page = started z s; server = srv })) z
unfolding exchange
exchange-settles z s srv user quiet range =
    let filled = is_empty-trim s.user ∙ user in
    let stored = jump-stores z (trim s.user) srv filled in
    let actual : offset_sec (jumped_server z (trim s.user) srv) ≡ z =
      unfold offset_sec in offset_roundtrip z range in
    rw stored (
      unfold step in
      record { idle = refl; user = user; quiet = quiet; shown = actual; actual = actual })

exchange-IsSettled :
    (stored : Bool) (p : Preset) (z : ℤ) (s : Page) (srv : Server)
    → (stored ≡ true → IsInRange (preset_offset p z))
    → IsSettled (record { page = s; server = srv }) z
    → IsSettled
        (exchange stored (record { page = started (preset_offset p z) s; server = srv }))
        (next_offset stored p z)
exchange-IsSettled true p z s srv range h =
    exchange-settles (preset_offset p z) s srv h.user h.quiet (range refl)
exchange-IsSettled false p z s srv range h =
    exchange-fails (preset_offset p z) z s srv h.user h.quiet h.shown h.actual

preset-IsSettled :
    (stored : Bool) (p : Preset) (sys : System) (z : ℤ)
    → (stored ≡ true → IsInRange (preset_offset p z))
    → IsSettled sys z
    → IsSettled (preset stored p sys) (next_offset stored p z)
unfolding preset
preset-IsSettled stored p sys z range h =
    let same : preset_offset p (offset_of sys.page.info) ≡ preset_offset p z =
      ap (preset_offset p) h.shown in
    let begins : step (press_preset p) sys.page ≡ started (preset_offset p z) sys.page =
      preset-starts p sys.page h.idle h.user ∙ ap (λ w. started w sys.page) same in
    subst
      (λ t.
        IsSettled (exchange stored (record { page = t; server = sys.server }))
          (next_offset stored p z))
      (sym begins) (exchange-IsSettled stored p z sys.page sys.server range h)

-- Presets, each with whether its jump can be stored.
unfoldable pub press_all : List (Bool × Preset) → System → System
press_all [] sys = sys
press_all ((stored, p) ∷ ps) sys = press_all ps (preset stored p sys)

-- The offset after some presets.
abbrev pub total : List (Bool × Preset) → ℤ → ℤ
total [] z = z
total ((stored, p) ∷ ps) z = total ps (next_offset stored p z)

-- The offset of each preset that is stored is in the range of the server.
abbrev pub StayInRange : List (Bool × Preset) → ℤ → Type 0
StayInRange [] z = Unit
StayInRange ((true, p) ∷ ps) z = IsInRange (preset_offset p z) × StayInRange ps (preset_offset p z)
StayInRange ((false, p) ∷ ps) z = StayInRange ps z

-- Presets are pressed one after the other on an idle page with a user that shows the offset of the
-- server, each answered by the server and nobody else changing its clock, and each offset that is
-- stored is within an int64 of nanoseconds. Then the server's offset is the sum of what the presets add
-- whose jumps could be stored, from the last of them that resets it, and the page shows this offset, idle.
pub presets_add_up :
    (ps : List (Bool × Preset)) (sys : System) (z : ℤ)
    → StayInRange ps z
    → IsSettled sys z
    → IsSettled (press_all ps sys) (total ps z)
unfolding press_all
presets_add_up [] sys z range h = h
presets_add_up ((true, p) ∷ ps) sys z (here, later) h =
    presets_add_up ps (preset true p sys) (preset_offset p z) later
      (preset-IsSettled true p sys z (λ _. here) h)
presets_add_up ((false, p) ∷ ps) sys z later h =
    presets_add_up ps (preset false p sys) z later (preset-IsSettled false p sys z (λ e. cc) h)
