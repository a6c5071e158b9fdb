-- ===== src/Api/Fetch.antt =====
-- The wrapper of `fetch`. What the network answers is a value of `Fetched`.
use future_was.Base.{ℕ, String, Bool, ◌&&◌, [], ◌∷◌, leb, if◌then◌else◌, template}
use future_was.Base.Decimal.{show_nat}
use future_was.Base.Results.{Result, ok, err}

-- A response. `text` and `json` are what `res.text()` and `res.json()` settle to.
pub record Response {ℓ} (T : Type ℓ) : Type ℓ where
  pub status : ℕ
  pub status_text : String
  pub text : Result String
  pub json : Result T

-- What `fetch` settles to; a rejection carries the text of its error.
pub data Fetched {ℓ} (T : Type ℓ) : Type ℓ where
  responded : Response T → Fetched T
  unreachable : String → Fetched T

-- `res.text().catch(() => res.statusText)`
abbrev pub text_or_status : Result String → String → String
text_or_status (ok text) status_text = text
text_or_status (err e) status_text = status_text

-- `String(new Error(...))` of a refused response.
abbrev pub http_error : ℕ → String → String
http_error status text = template ("Error: " ∷ show_nat status ∷ " " ∷ text ∷ [])

module _ {ℓ} {T : Type ℓ} where
  -- `res.ok`
  abbrev pub is_ok : Response T → Bool
  is_ok res = leb 200 res.status && leb res.status 299

  unfoldable pub request : Fetched T → Result T
  request (unreachable e) = err e
  request (responded res) =
      if is_ok res
      then res.json
      else err (http_error res.status (text_or_status res.text res.status_text))

-- `versionApi.reload`, which has no wrapper: a body that cannot be read is an error of its own.
abbrev pub refused : ℕ → Result String → Result String
refused status (ok text) = err (http_error status text)
refused status (err e) = err e

unfoldable pub reload : Fetched String → Result String
reload (unreachable e) = err e
reload (responded res) = if is_ok res then res.text else refused res.status res.text
