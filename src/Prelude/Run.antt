-- ===== src/Prelude/Run.antt =====
-- Code that may not return: an action that polls is given a number of rounds, and has no result when
-- they are used up. Otherwise it is an `Exec`.
use mathlib.Core.Path.{◌≡◌, refl}
use mathlib.Core.Option.{Option, none, some}
use cbdynclusterd.Prelude.Result.{Result, ok, err, panic}
use cbdynclusterd.Prelude.Exec.{Exec}

abbrev pub Run {ℓ} : Type ℓ → Type ℓ → Type ℓ
Run S A = S → Option (Result A × S)

module _ {ℓ} {S A : Type ℓ} where
  abbrev pub returning : A → Run S A
  returning a s = some (ok a, s)

  -- An action that always returns.
  abbrev pub exec : Exec S A → Run S A
  exec m s = some (m s)

module _ {ℓ} {S A B : Type ℓ} where
  abbrev pub after_result : Result A → (A → Run S B) → Run S B
  after_result (ok a) f s = f a s
  after_result (err e) f s = some (err e, s)
  after_result panic f s = some (panic, s)

  abbrev pub after_run : Option (Result A × S) → (A → Run S B) → Option (Result B × S)
  after_run none f = none
  after_run (some (r, s)) f = after_result r f s

  infixl 5 ◌>>=◌ ◌>>◌
  abbrev pub ◌>>=◌ : Run S A → (A → Run S B) → Run S B
  ◌>>=◌ m f s = after_run (m s) f

  abbrev pub ◌>>◌ : Run S A → Run S B → Run S B
  m >> n = m >>= λ _. n

-- Inversion of a bind that succeeds: its first part did, and what follows does from there.
pub run-eq-ok {ℓ} :
    {S A B : Type ℓ} (o : Option (Result A × S)) (f : A → Run S B) (b : B) (last : S)
    → after_run o f ≡ some (ok b, last)
    → (a : A) × (mid : S) × (o ≡ some (ok a, mid)) × (f a mid ≡ some (ok b, last))
run-eq-ok none f b last h = cc
run-eq-ok (some (ok a, mid)) f b last h = (a, mid, refl, h)
run-eq-ok (some (err e, mid)) f b last h = cc
run-eq-ok (some (panic, mid)) f b last h = cc

-- The same for a first part that changes nothing.
pub after_result-eq-ok {ℓ} :
    {S A B : Type ℓ} (r : Result A) (f : A → Run S B) (s last : S) (b : B)
    → after_result r f s ≡ some (ok b, last)
    → (a : A) × (r ≡ ok a) × (f a s ≡ some (ok b, last))
after_result-eq-ok (ok a) f s last b h = (a, refl, h)
after_result-eq-ok (err e) f s last b h = cc
after_result-eq-ok panic f s last b h = cc
