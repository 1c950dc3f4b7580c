-- ===== src/Prelude/Keeps.antt =====
-- Invariants of code that changes state: an action keeps a predicate if it leads from no state
-- where it holds to one where it does not, whatever the result is.
use mathlib.Core.Path.{◌≡◌, refl}
use mathlib.Core.List.{List, [], ◌∷◌}
use cbdynclusterd.Prelude.Result.{Result, ok, err, panic}
use cbdynclusterd.Prelude.Exec.{Exec, continue, ◌>>=◌}
use cbdynclusterd.Prelude.Join.{Schedule, run_all, join}

abbrev pub Keeps {ℓ κ} : {S A : Type ℓ} → (S → Type κ) → Exec S A → Type (ℓ ⊔ κ)
Keeps {S = S} I m = (s : S) → I s → I (m s).1

module _ {ℓ κ} {S A B : Type ℓ} (I : S → Type κ) where
  pub continue-Keeps :
      (r : Result A) (f : A → Exec S B)
      → ((a : A) → r ≡ ok a → Keeps I (f a))
      → Keeps I (continue r f)
  continue-Keeps (ok a) f step s i = step a refl s i
  continue-Keeps (err e) f step s i = i
  continue-Keeps panic f step s i = i

  pub >>=-Keeps :
      (m : Exec S A) (f : A → Exec S B) → Keeps I m → ((a : A) → Keeps I (f a)) → Keeps I (m >>= f)
  >>=-Keeps m f first step s i = continue-Keeps (m s).0 f (λ a _. step a) (m s).1 (first s i)

module _ {κ} {S X : Type 0} (I : S → Type κ) (f : X → Exec S (Unit {0}))
    (each : (x : X) → Keeps I (f x)) where
  run_all-Keeps : (xs : List X) (s : S) → I s → I (run_all f xs s).1
  unfolding run_all
  run_all-Keeps [] s i = i
  run_all-Keeps (x ∷ xs) s i = run_all-Keeps xs (f x s).1 (each x s i)

  pub join-Keeps : (sched : Schedule X) (xs : List X) → Keeps I (join sched f xs)
  unfolding join
  join-Keeps sched xs s i = run_all-Keeps (sched.run xs) s i
