-- ===== src/Prelude/Await.antt =====
-- Goroutines that each do one job and send its error on a channel, and the loop that returns at the
-- first error, when all have answered, or when none answers in time: restCallToAux of
-- cluster/node.go and pollJoinReadyAll of cluster/manager.go. Each job is one step of the model, and
-- all of them act, also those that the loop does not wait for.
use mathlib.Core.Path.{◌≡◌, refl}
use mathlib.Core.List.{List, [], ◌∷◌, Permᴰ}
use mathlib.Core.List.Permᴰ
use Prim.Native.String.{String}
use mathlib.Core.Option.{Option, none, some}
use cbdynclusterd.Prelude.Lists.{All, All-perm, Reorders}
use cbdynclusterd.Prelude.Result.{failure, Result, ok, err, panic}
use cbdynclusterd.Prelude.Join.{run_all, IsOk}

pub record Waiting {ℓ} (X : Type ℓ) : Type ℓ where
  -- the order in which the jobs act
  pub run : List X → List X
  -- the results as they arrive; `none` is the timeout
  pub receive : List (Result (Unit {0})) → List (Option (Result (Unit {0})))

-- The results, if none of them is a timeout.
abbrev pub with_next {ℓ} : {A : Type ℓ} → Option A → Option (List A) → Option (List A)
with_next none os = none
with_next (some a) none = none
with_next (some a) (some as') = some (a ∷ as')

unfoldable pub in_time {ℓ} : {A : Type ℓ} → List (Option A) → Option (List A)
in_time [] = some []
in_time (o ∷ os) = with_next o (in_time os)

-- What arrives with no timeout is what was sent, in some order.
pub record IsWaiting {ℓ} {X : Type ℓ} (w : Waiting X) : Type ℓ where
  pub run : Reorders w.run
  pub receive : (rs xs : List (Result (Unit {0}))) → in_time (w.receive rs) ≡ some xs → Permᴰ rs xs

abbrev pub await_next : String → Option (Result (Unit {0})) → Result (Unit {0}) → Result (Unit {0})
await_next timeout none later = err (failure timeout)
await_next timeout (some (ok _)) later = later
await_next timeout (some (err e)) later = err e
await_next timeout (some panic) later = panic

unfoldable pub await : String → List (Option (Result (Unit {0}))) → Result (Unit {0})
await timeout [] = ok tt
await timeout (o ∷ os) = await_next timeout o (await timeout os)

-- With no job there is nothing to wait for.
unfoldable pub await_all {ℓ} :
    {X S : Type ℓ}
    → String
    → Waiting X
    → (X → S → Result (Unit {0}) × S)
    → List X
    → S
    → Result (Unit {0}) × S
await_all timeout w f [] s = (ok tt, s)
await_all timeout w f (x ∷ xs) s =
    let (rs, s') = run_all f (w.run (x ∷ xs)) s in (await timeout (w.receive rs), s')

await-in_time :
    (timeout : String) (os : List (Option (Result (Unit {0}))))
    → await timeout os ≡ ok tt
    → (xs : List (Result (Unit {0}))) × (in_time os ≡ some xs) × All IsOk xs
unfolding await in_time
await-in_time timeout [] h = ([], refl, tt)
await-in_time timeout (none ∷ os) h = cc
await-in_time timeout (some (ok u) ∷ os) h =
    let (xs, e, all) = await-in_time timeout os h in (ok u ∷ xs, rw e, (refl, all))
await-in_time timeout (some (err e) ∷ os) h = cc
await-in_time timeout (some panic ∷ os) h = cc

perm_nil {ℓ} : {A : Type ℓ} {xs ys : List A} → Permᴰ xs ys → xs ≡ [] → ys ≡ []
perm_nil Permᴰ.nil h = refl
perm_nil (Permᴰ.cons e p) h = cc
perm_nil (Permᴰ.swap e f) h = cc
perm_nil (Permᴰ.trans p q) h = perm_nil q (perm_nil p h)

-- If the loop ends without an error, every job has succeeded, and the state is what they left.
pub await_all-eq-ok {ℓ} :
    {X S : Type ℓ} (timeout : String) (w : Waiting X) (f : X → S → Result (Unit {0}) × S)
    (xs : List X) (s : S)
    → IsWaiting w
    → (await_all timeout w f xs s).0 ≡ ok tt
    → All IsOk (run_all f (w.run xs) s).0
      × ((await_all timeout w f xs s).1 ≡ (run_all f (w.run xs) s).1)
unfolding await_all run_all
await_all-eq-ok timeout w f [] s fair h = rw (perm_nil (fair.run []) refl) (tt, refl)
await_all-eq-ok timeout w f (x ∷ xs) s fair h =
    let sent = (run_all f (w.run (x ∷ xs)) s).0 in
    let (got, e, all) = await-in_time timeout (w.receive sent) h in
    (All-perm IsOk (Permᴰ.symm (fair.receive sent got e)) all, refl)
