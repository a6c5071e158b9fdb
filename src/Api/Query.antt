-- ===== src/Api/Query.antt =====
-- `URLSearchParams.toString()`: the application/x-www-form-urlencoded serializer.
use Prim.Native.Char.{Char, code}
use future_was.Base.{
  ℕ, zero, suc, ◌+◌, ◌/◌, ◌%◌, String, Bool, ◌&&◌, ◌||◌, List, [], ◌∷◌, leb, ltb, ◌==◌,
  if◌then◌else◌, template,
}

-- The bytes of a code point in UTF-8.
abbrev pub utf8 : ℕ → List ℕ
utf8 c =
    if ltb c 0x80
    then c ∷ []
    else if ltb c 0x800
    then (0xc0 + c / 64) ∷ (0x80 + c % 64) ∷ []
    else if ltb c 0x10000
    then (0xe0 + c / 4096) ∷ (0x80 + c / 64 % 64) ∷ (0x80 + c % 64) ∷ []
    else (0xf0 + c / 262144) ∷ (0x80 + c / 4096 % 64) ∷ (0x80 + c / 64 % 64) ∷ (0x80 + c % 64) ∷ []

unfoldable pub hex_digit : ℕ → Char
hex_digit zero = "0"
hex_digit (suc zero) = "1"
hex_digit (suc (suc zero)) = "2"
hex_digit (suc (suc (suc zero))) = "3"
hex_digit (suc (suc (suc (suc zero)))) = "4"
hex_digit (suc (suc (suc (suc (suc zero))))) = "5"
hex_digit (suc (suc (suc (suc (suc (suc zero)))))) = "6"
hex_digit (suc (suc (suc (suc (suc (suc (suc zero))))))) = "7"
hex_digit (suc (suc (suc (suc (suc (suc (suc (suc zero)))))))) = "8"
hex_digit (suc (suc (suc (suc (suc (suc (suc (suc (suc zero))))))))) = "9"
hex_digit (suc (suc (suc (suc (suc (suc (suc (suc (suc (suc zero)))))))))) = "A"
hex_digit (suc (suc (suc (suc (suc (suc (suc (suc (suc (suc (suc zero))))))))))) = "B"
hex_digit (suc (suc (suc (suc (suc (suc (suc (suc (suc (suc (suc (suc zero)))))))))))) = "C"
hex_digit (suc (suc (suc (suc (suc (suc (suc (suc (suc (suc (suc (suc (suc zero))))))))))))) = "D"
hex_digit (suc (suc (suc (suc (suc (suc (suc (suc (suc (suc (suc (suc (suc (suc zero)))))))))))))) =
    "E"
hex_digit
      (suc (suc (suc (suc (suc (suc (suc (suc (suc (suc (suc (suc (suc (suc (suc n))))))))))))))) =
    "F"

-- Each byte as `%` and two hexadecimal digits, in front of a rest.
unfoldable pub percent_encode : List ℕ → String → String
unfolding hex_digit
percent_encode [] rest = rest
percent_encode (b ∷ bs) rest =
    String.◌∷◌ "%"
      (String.◌∷◌ (hex_digit (b / 16)) (String.◌∷◌ (hex_digit (b % 16)) (percent_encode bs rest)))

-- Letters, digits and `*-._` stand for themselves.
abbrev pub is_plain : ℕ → Bool
is_plain c =
    (leb 48 c && leb c 57)
    || (leb 65 c && leb c 90)
    || (leb 97 c && leb c 122)
    || c == 42
    || c == 45
    || c == 46
    || c == 95

unfoldable pub form_encode : String → String
unfolding percent_encode
form_encode String.[] = String.[]
form_encode (String.◌∷◌ c s) =
    let rest = form_encode s in
    if is_plain (code c)
    then String.◌∷◌ c rest
    else if code c == 32
    then String.◌∷◌ "+" rest
    else percent_encode (utf8 (code c)) rest

unfoldable pub query_string : List (String × String) → String
unfolding form_encode
query_string [] = ""
query_string ((k, v) ∷ []) = template (form_encode k ∷ "=" ∷ form_encode v ∷ [])
query_string ((k, v) ∷ p ∷ more) =
    template (form_encode k ∷ "=" ∷ form_encode v ∷ "&" ∷ query_string (p ∷ more) ∷ [])
