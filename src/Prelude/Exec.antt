-- ===== src/Prelude/Exec.antt =====
-- Code that changes state and may fail or panic. What was written before an error stays written,
-- so the state comes back beside the error too.
use mathlib.Core.Path.{◌≡◌, refl, ap, sym, ◌∙◌}
use mathlib.Core.List.{List, [], ◌∷◌}
use cbdynclusterd.Prelude.Lists.{All}
use cbdynclusterd.Prelude.Result.{Error, Result, ok, err, panic}

abbrev pub Exec {ℓ} : Type ℓ → Type ℓ → Type ℓ
Exec S A = S → Result A × S

module _ {ℓ} {S A : Type ℓ} where
  abbrev pub pure : A → Exec S A
  pure a s = (ok a, s)

  abbrev pub raise : Error → Exec S A
  raise e s = (err e, s)

  abbrev pub lift : Result A → Exec S A
  lift r s = (r, s)

  -- A read of the state that may fail.
  abbrev pub reads : (S → Result A) → Exec S A
  reads f s = (f s, s)

module _ {ℓ} {S A B : Type ℓ} where
  abbrev pub continue : Result A → (A → Exec S B) → Exec S B
  continue (ok a) f s = f a s
  continue (err e) f s = (err e, s)
  continue panic f s = (panic, s)

  infixl 5 ◌>>=◌ ◌>>◌
  abbrev pub ◌>>=◌ : Exec S A → (A → Exec S B) → Exec S B
  ◌>>=◌ m f s = continue (m s).0 f (m s).1

  abbrev pub ◌>>◌ : Exec S A → Exec S B → Exec S B
  m >> n = m >>= λ _. n

-- `for _, x := range xs { if err := f(x); err != nil { return err } }`
unfoldable pub for_each {ℓ κ} : {S A : Type ℓ} {X : Type κ} → A → (X → Exec S A) → List X → Exec S A
for_each done f [] = pure done
for_each done f (x ∷ xs) = do f x; for_each done f xs

-- The call gives this value, from the first state to the second.
abbrev pub Gives {ℓ} : {S A : Type ℓ} → Exec S A → A → S → S → Type ℓ
Gives m a s s' = m s ≡ (ok a, s')

-- Inversion of a bind that succeeds.
pub continue-eq-ok {ℓ} :
    {S A B : Type ℓ} (r : Result A) (f : A → Exec S B) (s : S) (b : B)
    → (continue r f s).0 ≡ ok b
    → (a : A) × (r ≡ ok a) × (continue r f s ≡ f a s)
continue-eq-ok (ok a) f s b h = (a, refl, refl)
continue-eq-ok (err e) f s b h = cc
continue-eq-ok panic f s b h = cc

-- What a failed step leaves: its state, and no success.
pub continue_failed {ℓ} :
    {S B : Type ℓ} (r : Result (Unit {ℓ})) (f : Unit {ℓ} → Exec S B) (s : S) (b : B)
    → ¬ (r ≡ ok tt)
    → (¬ ((continue r f s).0 ≡ ok b)) × ((continue r f s).1 ≡ s)
continue_failed (ok u) f s b h = absurd (h refl)
continue_failed (err e) f s b h = (λ p. cc, refl)
continue_failed panic f s b h = (λ p. cc, refl)

-- The same with the state that is left.
pub exec-eq-ok {ℓ} :
    {S A B : Type ℓ} (r : Result A) (f : A → Exec S B) (s last : S) (b : B)
    → continue r f s ≡ (ok b, last)
    → (a : A) × (r ≡ ok a) × (f a s ≡ (ok b, last))
exec-eq-ok (ok a) f s last b h = (a, refl, h)
exec-eq-ok (err e) f s last b h = cc
exec-eq-ok panic f s last b h = cc

-- A loop that ends without an error has acted on each member without one.
pub for_each-eq-ok :
    {S X : Type 0} (f : X → Exec S (Unit {0})) (xs : List X) (s : S)
    → (for_each tt f xs s).0 ≡ ok tt
    → All (λ x. (s' : S) × ((f x s').0 ≡ ok tt)) xs
unfolding for_each
for_each-eq-ok f [] s h = tt
for_each-eq-ok f (x ∷ xs) s h =
    let (_, done, rest) = continue-eq-ok (f x s).0 (λ _. for_each tt f xs) (f x s).1 tt h in
    ((s, done), for_each-eq-ok f xs (f x s).1 (ap (λ r. r.0) (sym rest) ∙ h))
