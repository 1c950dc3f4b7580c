-- ===== src/Prelude/Text.antt =====
-- What the code uses of Go's packages strings and strconv, over the native strings.
use Prim.Native.Nat.{ℕ, zero, suc, ◌+◌, ◌-◌, ◌*◌, ◌/◌, ◌%◌, ◌^◌}
use Prim.Native.Char.{Char, code}
use Prim.Native.String.{String, ◌++◌}
use mathlib.Core.Path.{◌≡◌, refl}
use mathlib.Core.Bool.{Bool, ◌&&◌, ◌||◌}
use mathlib.Core.List.{List, [], ◌∷◌}
use mathlib.Core.Option.{Option, none, some}
use text.Mathlib.Text.{◌==◌, starts_with}
use cbdynclusterd.Prelude.Tests.{ltb, leb, eqb, if◌then◌else◌}
use cbdynclusterd.Prelude.Int.{ℤ, pos, negsuc}

abbrev grow_head : Char → List String → List String
grow_head c [] = String.◌∷◌ c String.[] ∷ []
grow_head c (p ∷ ps) = String.◌∷◌ c p ∷ ps

-- strings.Split(s, sep) for a separator of one character
unfoldable pub split : ℕ → String → List String
split sep String.[] = "" ∷ []
split sep (String.◌∷◌ c s) =
    if eqb (code c) sep then "" ∷ split sep s else grow_head c (split sep s)

-- strings.Join(parts, sep)
unfoldable pub join : String → List String → String
join sep [] = ""
join sep (p ∷ []) = p
join sep (p ∷ q ∷ ps) = p ++ (sep ++ join sep (q ∷ ps))

-- strings.HasSuffix(s, t)
unfoldable pub has_suffix : String → String → Bool
has_suffix String.[] t = "" == t
has_suffix (String.◌∷◌ c s) t = String.◌∷◌ c s == t || has_suffix s t

-- strings.Contains(s, t)
unfoldable pub contains : String → String → Bool
contains String.[] t = "" == t
contains (String.◌∷◌ c s) t = starts_with (String.◌∷◌ c s) t || contains s t

-- unicode.IsSpace, of a code point
abbrev pub is_space : ℕ → Bool
is_space c =
    (leb 9 c && leb c 13)
    || eqb c 32
    || eqb c 0x85
    || eqb c 0xa0
    || eqb c 0x1680
    || (leb 0x2000 c && leb c 0x200a)
    || eqb c 0x2028
    || eqb c 0x2029
    || eqb c 0x202f
    || eqb c 0x205f
    || eqb c 0x3000

unfoldable pub trim_left : String → String
trim_left String.[] = ""
trim_left (String.◌∷◌ c s) =
    let rest = trim_left s in if is_space (code c) then rest else String.◌∷◌ c s

unfoldable pub trim_right : String → String
trim_right String.[] = ""
trim_right (String.◌∷◌ c s) =
    let rest = trim_right s in if is_space (code c) && (rest == "") then "" else String.◌∷◌ c rest

-- strings.TrimSpace
unfoldable pub trim_space : String → String
unfolding trim_left trim_right
trim_space s = trim_right (trim_left s)

digits : ℕ → String → Option ℕ
digits n String.[] = some n
digits n (String.◌∷◌ c s) =
    let rest = digits (n * 10 + (code c - 48)) s in
    if leb 48 (code c) && leb (code c) 57 then rest else none

-- the digits of a number, at least one
magnitude : String → Option ℕ
unfolding digits
magnitude String.[] = none
magnitude (String.◌∷◌ c s) = digits 0 (String.◌∷◌ c s)

positive : Option ℕ → Option ℤ
positive none = none
positive (some n) = if ltb n (2 ^ 63) then some (pos n) else none

negative : Option ℕ → Option ℤ
negative none = none
negative (some zero) = some (pos 0)
negative (some (suc n)) = if ltb n (2 ^ 63) then some (negsuc n) else none

-- strconv.Atoi on a 64-bit machine; `none` is its error
unfoldable pub atoi : String → Option ℤ
unfolding magnitude positive negative
atoi String.[] = none
atoi (String.◌∷◌ c s) =
    if eqb (code c) b'-'
    then negative (magnitude s)
    else if eqb (code c) b'+'
    then positive (magnitude s)
    else positive (magnitude (String.◌∷◌ c s))

digit : ℕ → Char
digit zero = "0"
digit (suc zero) = "1"
digit (suc (suc zero)) = "2"
digit (suc (suc (suc zero))) = "3"
digit (suc (suc (suc (suc zero)))) = "4"
digit (suc (suc (suc (suc (suc zero))))) = "5"
digit (suc (suc (suc (suc (suc (suc zero)))))) = "6"
digit (suc (suc (suc (suc (suc (suc (suc zero))))))) = "7"
digit (suc (suc (suc (suc (suc (suc (suc (suc zero)))))))) = "8"
digit _ = "9"

-- Digits are put in front of those printed already; each round divides by ten, so the number
-- itself is fuel enough.
print_digits : ℕ → ℕ → String → String
unfolding digit
print_digits zero n acc = acc
print_digits (suc f) n acc =
    let shown = String.◌∷◌ (digit (n % 10)) acc in
    let rest = print_digits f (n / 10) shown in if ltb n 10 then shown else rest

unfoldable pub show_nat : ℕ → String
unfolding print_digits
show_nat n = print_digits (suc n) n ""

-- strconv.Itoa
unfoldable pub itoa : ℤ → String
unfolding show_nat
itoa (pos n) = show_nat n
itoa (negsuc n) = "-" ++ show_nat (suc n)

split_version : split b'.' "7.0.2" ≡ "7" ∷ "0" ∷ "2" ∷ []
unfolding split
split_version = refl

atoi-itoa_small : atoi (itoa (negsuc 1233)) ≡ some (negsuc 1233)
unfolding atoi itoa
atoi-itoa_small = refl
