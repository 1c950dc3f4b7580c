-- ===== src/Prelude/Join.antt =====
-- Goroutines that each do one job and send its error on a channel, and the loop that receives as
-- many errors as there are jobs and keeps the first. The jobs act in any order, and their errors
-- arrive in any order. Each job is one step of the model: jobs do not interleave.
use mathlib.Core.Path.{◌≡◌, refl}
use mathlib.Core.Logic.{◌↔◌}
use mathlib.Core.List.{List, [], ◌∷◌}
use mathlib.Core.List.Permᴰ
use native.Mathlib.Omega.{arith}
use cbdynclusterd.Prelude.Lists.{All, All-perm, Reorders}
use cbdynclusterd.Prelude.Result.{Result, ok, err, panic}

pub record Schedule {ℓ} (X : Type ℓ) : Type ℓ where
  -- the order in which the jobs act
  pub run : List X → List X
  -- the order in which their results arrive
  pub receive : List (Result (Unit {0})) → List (Result (Unit {0}))

pub record IsSchedule {ℓ} {X : Type ℓ} (s : Schedule X) : Type ℓ where
  pub run : Reorders s.run
  pub receive : Reorders s.receive

abbrev pub keep_first : Result (Unit {0}) → Result (Unit {0}) → Result (Unit {0})
keep_first (ok _) later = later
keep_first (err e) (ok _) = err e
keep_first (err e) (err _) = err e
keep_first (err e) panic = panic
keep_first panic later = panic

-- `for range jobs { err := <-signal; if err != nil && first == nil { first = err } }`; a panic in a
-- goroutine ends the program.
unfoldable pub first_error : List (Result (Unit {0})) → Result (Unit {0})
first_error [] = ok tt
first_error (r ∷ rs) = keep_first r (first_error rs)

unfoldable pub run_all {ℓ} :
    {X S : Type ℓ} → (X → S → Result (Unit {0}) × S) → List X → S → List (Result (Unit {0})) × S
run_all f [] s = ([], s)
run_all f (x ∷ xs) s = let (r, s') = f x s in let (rs, s'') = run_all f xs s' in (r ∷ rs, s'')

unfoldable pub join {ℓ} :
    {X S : Type ℓ}
    → Schedule X
    → (X → S → Result (Unit {0}) × S)
    → List X
    → S
    → Result (Unit {0}) × S
join sched f xs s =
    let (rs, s') = run_all f (sched.run xs) s in (first_error (sched.receive rs), s')

abbrev pub IsOk : Result (Unit {0}) → Type 0
IsOk r = r ≡ ok tt

pub first_error_iff : (rs : List (Result (Unit {0}))) → (first_error rs ≡ ok tt) ↔ All IsOk rs
unfolding first_error
first_error_iff [] = (λ h. tt, λ h. refl)
first_error_iff (r ∷ rs) = (
  λ h. (ground (arith, first_error_iff rs), (first_error_iff rs).0 (ground arith)),
  λ h. ground (arith, (first_error_iff rs).1 h.1),
)

module _ {ℓ} {X S : Type ℓ} (sched : Schedule X) (fair : IsSchedule sched) where
  -- The joined jobs succeed exactly if every job did, in whatever order the errors arrive.
  -- Supposes that the two orders are permutations.
  pub join_iff :
      (f : X → S → Result (Unit {0}) × S) (xs : List X) (s : S)
      → ((join sched f xs s).0 ≡ ok tt) ↔ All IsOk (run_all f (sched.run xs) s).0
  unfolding join
  join_iff f xs s = (
    λ h. All-perm IsOk (Permᴰ.symm (fair.receive _)) ((first_error_iff _).0 h),
    λ h. (first_error_iff _).1 (All-perm IsOk (fair.receive _) h),
  )
