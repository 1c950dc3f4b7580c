-- ===== src/Escape.antt =====
-- url.QueryEscape of Go's net/url, which cluster/node.go uses for form bodies.
use Prim.Native.Char.{Char, code}
use Prim.Native.String.{String, ◌++◌}
use cbdynclusterd.Prelude.{
  ℕ, zero, suc, ◌+◌, ◌/◌, ◌%◌, Bool, ◌&&◌, ◌||◌, List, [], ◌∷◌, ltb, leb, eqb, if◌then◌else◌,
}

-- The bytes of a character in UTF-8.
abbrev utf8 : ℕ → List ℕ
utf8 c =
    if ltb c 128
    then c ∷ []
    else if ltb c 2048
    then (192 + c / 64) ∷ (128 + c % 64) ∷ []
    else if ltb c 65536
    then (224 + c / 4096) ∷ (128 + c / 64 % 64) ∷ (128 + c % 64) ∷ []
    else (240 + c / 262144) ∷ (128 + c / 4096 % 64) ∷ (128 + c / 64 % 64) ∷ (128 + c % 64) ∷ []

hex_digit : ℕ → String
hex_digit zero = "0"
hex_digit (suc zero) = "1"
hex_digit (suc (suc zero)) = "2"
hex_digit (suc (suc (suc zero))) = "3"
hex_digit (suc (suc (suc (suc zero)))) = "4"
hex_digit (suc (suc (suc (suc (suc zero))))) = "5"
hex_digit (suc (suc (suc (suc (suc (suc zero)))))) = "6"
hex_digit (suc (suc (suc (suc (suc (suc (suc zero))))))) = "7"
hex_digit (suc (suc (suc (suc (suc (suc (suc (suc zero)))))))) = "8"
hex_digit (suc (suc (suc (suc (suc (suc (suc (suc (suc zero))))))))) = "9"
hex_digit (suc (suc (suc (suc (suc (suc (suc (suc (suc (suc zero)))))))))) = "A"
hex_digit (suc (suc (suc (suc (suc (suc (suc (suc (suc (suc (suc zero))))))))))) = "B"
hex_digit (suc (suc (suc (suc (suc (suc (suc (suc (suc (suc (suc (suc zero)))))))))))) = "C"
hex_digit (suc (suc (suc (suc (suc (suc (suc (suc (suc (suc (suc (suc (suc zero))))))))))))) = "D"
hex_digit (suc (suc (suc (suc (suc (suc (suc (suc (suc (suc (suc (suc (suc (suc zero)))))))))))))) =
    "E"
hex_digit _ = "F"

percent : List ℕ → String
unfolding hex_digit
percent [] = ""
percent (b ∷ bs) = "%" ++ (hex_digit (b / 16) ++ (hex_digit (b % 16) ++ percent bs))

-- Letters, digits and `-_.~` stand for themselves.
is_unreserved : ℕ → Bool
is_unreserved c =
    (leb b'a' c && leb c b'z')
    || (leb b'A' c && leb c b'Z')
    || (leb b'0' c && leb c b'9')
    || (eqb c b'-' || eqb c b'_' || eqb c b'.' || eqb c b'~')

escape_char : Char → String
unfolding percent is_unreserved
escape_char c =
    if is_unreserved (code c)
    then String.◌∷◌ c String.[]
    else if eqb (code c) b' '
    then "+"
    else percent (utf8 (code c))

unfoldable pub query_escape : String → String
unfolding escape_char
query_escape String.[] = ""
query_escape (String.◌∷◌ c s) = escape_char c ++ query_escape s
