-- ===== src/App/Dev.antt =====
-- web/admin/vite.config.ts: who answers a request during development. That a path is proxied where
-- it begins with a key of `server.proxy` is what Vite documents.
use future_was.Base.{ℕ, Bool, String, List, [], ◌∷◌, ◌++◌, codes, is_some, ◌≡◌, refl, if◌then◌else◌}
use future_was.Server.Ui.{after}

abbrev pub base : String
base = "/admin/ui/"

-- `server.proxy`: the keys with their targets.
abbrev pub proxy : List (String × String)
proxy = ("/admin", "http://localhost:8089") ∷ []

pub data Answerer : Type 0 where
  target : String → Answerer
  vite : Answerer

abbrev pub starts_with : List ℕ → List ℕ → Bool
starts_with prefix path = is_some (after prefix path)

unfoldable pub proxied : List (String × String) → List ℕ → Answerer
proxied [] path = vite
proxied ((key, to) ∷ more) path =
    let rest = proxied more path in if starts_with (codes key) path then target to else rest

-- Every address of the console, and not only those of the API, is answered by the Go server.
pub console_is_proxied :
    (path : List ℕ) → proxied proxy (codes base ++ path) ≡ target "http://localhost:8089"
unfolding proxied
console_is_proxied path = refl
