-- ===== src/Server/Clock.antt =====
-- router/admin.go, `registerClockAdmin`, and internal/clock/clock.go: the offset of the server's
-- clock, an int64 of nanoseconds.
use future_was.Base.{
  ℕ, suc, ◌-◌, ◌/◌, ◌%◌, ◌≤◌, String, str_eq, Bool, List, [], ◌∷◌, ltb, if◌then◌else◌, ◌≡◌, arith,
}
use future_was.Base.Int.{ℤ, pos, negsuc, pos_part, neg_part, sub_ℕ, scale}
use future_was.Base.Trim.{is_empty}
use future_was.Api.{Json, text, number}

abbrev pub two_63 : ℕ
two_63 = 9223372036854775808

abbrev pub two_64 : ℕ
two_64 = 18446744073709551616

abbrev pub second : ℕ
second = 1000000000

-- The value of an integer in an int64.
unfoldable pub wrap_64 : ℤ → ℤ
wrap_64 (pos n) = let r = n % two_64 in if ltb r two_63 then pos r else negsuc (two_64 - 1 - r)
wrap_64 (negsuc n) = let r = n % two_64 in if ltb r two_63 then negsuc r else pos (two_64 - 1 - r)

-- `z / k` in Go, which rounds towards zero.
unfoldable pub trunc_div : ℤ → ℕ → ℤ
trunc_div (pos n) k = pos (n / k)
trunc_div (negsuc n) k = sub_ℕ 0 (suc n / k)

-- The offset, and the rows that were stored, the latest first.
pub record Server : Type 0 where
  pub offset_ns : ℤ
  pub rows : List (ℤ × String)

-- A field of a JSON body; a missing one is the zero value.
unfoldable pub number_at : String → List (String × Json) → ℤ
number_at k [] = pos 0
number_at k ((j, number z) ∷ body) = if str_eq j k then z else number_at k body
number_at k ((j, _) ∷ body) = number_at k body

unfoldable pub text_at : String → List (String × Json) → String
text_at k [] = ""
text_at k ((j, text v) ∷ body) = if str_eq j k then v else text_at k body
text_at k ((j, _) ∷ body) = text_at k body

-- `int64(clock.Offset().Seconds())`
unfoldable pub offset_sec : Server → ℤ
unfolding trunc_div
offset_sec srv = trunc_div srv.offset_ns second

-- The answer of the server to a jump.
pub data Reply : Type 0 where
  done : ℤ → Reply
  bad_request internal_error : Reply

-- POST /clock/jump of a body that could be read; `stored` is whether the row could be stored.
unfoldable pub jump : Bool → List (String × Json) → Server → Server × Reply
unfolding number_at text_at wrap_64
jump stored body srv =
    let add_second = number_at "add_second" body in
    let user = text_at "user" body in
    if is_empty user
    then (srv, bad_request)
    else if stored
    then (
      record {
        offset_ns = wrap_64 (scale add_second second);
        rows = (add_second, user) ∷ srv.rows;
      },
      done add_second,
    )
    else (srv, internal_error)

-- The seconds that an int64 of nanoseconds holds.
abbrev pub IsInRange : ℤ → Type 0
IsInRange z = (pos_part z ≤ 9223372036) × (neg_part z ≤ 9223372036)

-- A jump whose seconds fit in an int64 of nanoseconds is reported back as it was sent.
pub offset_roundtrip : (z : ℤ) → IsInRange z → trunc_div (wrap_64 (scale z second)) second ≡ z
unfolding trunc_div wrap_64 scale
offset_roundtrip (pos n) h = ground arith
offset_roundtrip (negsuc n) h = ground arith
