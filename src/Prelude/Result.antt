-- ===== src/Prelude/Result.antt =====
-- Go's (value, error) results, with a panic as a third outcome.
use Prim.Native.String.{String, ◌++◌}
use mathlib.Core.Path.{◌≡◌, refl}
use mathlib.Core.Bool.{Bool, true, false}
use mathlib.Core.List.{List, [], ◌∷◌}

-- `failure` is errors.New and fmt.Errorf; `stop` is the type of that name in helper/helper.go, an
-- error that RestRetryer does not retry.
pub data Error : Type 0 where
  failure : String → Error
  stop : Error → Error

-- err.Error()
unfoldable pub message : Error → String
message (failure s) = s
message (stop e) = message e

-- errors.Wrap of github.com/pkg/errors
unfoldable pub wrap : Error → String → Error
wrap e s = failure (s ++ (": " ++ message e))

pub data Result {ℓ} (A : Type ℓ) : Type ℓ where
  ok : A → Result A
  err : Error → Result A
  panic : Result A

infixl 5 ◌>>=◌ ◌>>◌
abbrev pub ◌>>=◌ {ℓ κ} : {A : Type ℓ} {B : Type κ} → Result A → (A → Result B) → Result B
ok a >>= f = f a
err e >>= f = err e
panic >>= f = panic

abbrev pub ◌>>◌ {ℓ} : {B : Type ℓ} → Result (Unit {0}) → Result B → Result B
m >> k = m >>= λ _. k

-- `for _, x := range xs { y, err := f(x); if err != nil { return err }; ys = append(ys, y) }`
unfoldable pub traverse {ℓ κ} :
    {A : Type ℓ} {B : Type κ} → (A → Result B) → List A → Result (List B)
traverse f [] = ok []
traverse f (x ∷ xs) = do y ← f x; ys ← traverse f xs; ok (y ∷ ys)

-- if !allowed { return reason }
abbrev pub guard : Bool → Error → Result (Unit {0})
guard false reason = err reason
guard true reason = ok tt

-- Inversion of a bind that succeeds.
pub >>=-eq-ok {ℓ κ} :
    {A : Type ℓ} {B : Type κ} (first : Result A) (next : A → Result B) {last : B}
    → (first >>= next) ≡ ok last
    → (mid : A) × (first ≡ ok mid) × (next mid ≡ ok last)
>>=-eq-ok panic next h = cc
>>=-eq-ok (err e) next h = cc
>>=-eq-ok (ok mid) next h = (mid, refl, h)

pub ok-injective {ℓ} : {A : Type ℓ} {a b : A} → ok a ≡ ok b → a ≡ b
ok-injective h = cc

pub guard-eq-ok : (b : Bool) (e : Error) {u : Unit {0}} → guard b e ≡ ok u → b ≡ true
guard-eq-ok true e h = refl
guard-eq-ok false e h = cc
