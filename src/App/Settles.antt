-- ===== src/App/Settles.antt =====
-- The pages of App.tsx as components that wait for answers.
use future_was.Base.{String, false, Option, List, [], ◌≡◌}
use future_was.Base.Runs.{run_by}
use future_was.Base.Awaits.{
  Awaiting, IsLawful, IsResponsive, Answering, answers, session, work, settles,
}
use future_was.VersionPage.Settle as VersionSettle
use future_was.ClockPage.Settle as ClockSettle
use future_was.MigrationsPage.Settle as MigrationsSettle

pub data ConsolePage : Type 0 where
  clock version migrations : ConsolePage

-- A page of the console, when the browser remembers an author or none.
abbrev pub awaiting : Option String → ConsolePage → Awaiting
awaiting storage clock = ClockSettle.awaiting
awaiting storage version = VersionSettle.awaiting
awaiting storage migrations = MigrationsSettle.awaiting storage

pub awaiting-IsLawful :
    (storage : Option String) (page : ConsolePage) → IsLawful (awaiting storage page)
awaiting-IsLawful storage clock = ClockSettle.awaiting-IsLawful
awaiting-IsLawful storage version = VersionSettle.awaiting-IsLawful
awaiting-IsLawful storage migrations = MigrationsSettle.awaiting-IsLawful storage

-- After any session of any page of the console, when the operator rests and whatever is open is
-- answered in any order, with success or not, by answers of the kind that is asked for: the page comes to rest, with nothing open and not
-- busy, after at most as many answers as the work that was open.
pub console_settles :
    (storage : Option String) (page : ConsolePage) (es : List (awaiting storage page).Event)
    (reply : Answering (awaiting storage page))
    → IsResponsive (awaiting storage page) reply
    → let m = awaiting storage page in
      let s = session m es in
      let t = run_by m.step (answers m (work m s) reply s) s in
      (m.pending t ≡ []) × (m.busy t ≡ false)
console_settles storage page es reply responsive =
    settles (awaiting storage page) (awaiting-IsLawful storage page) reply responsive es
