-- ===== src/Prelude/Lists.antt =====
-- Lists measured by native numbers, and predicates on all members.
use Prim.Native.Nat.{ℕ, zero, suc, ◌+◌}
use mathlib.Core.Path.{◌≡◌, subst, refl}
use mathlib.Core.Bool.{Bool, true, ◌&&◌}
use mathlib.Core.List.{List, [], ◌∷◌, ◌++◌, Permᴰ}
use mathlib.Core.Option.{Option, none, some}
use native.Mathlib.Omega.{arith}
use mathlib.Core.Logic.{inl, inr}
use cbdynclusterd.Prelude.Tests.{if◌then◌else◌, Bool-cases}

module _ {ℓ} {A : Type ℓ} where
  abbrev pub length : List A → ℕ
  length [] = 0
  length (x ∷ xs) = suc (length xs)

  abbrev pub get_elem? : List A → ℕ → Option A
  get_elem? [] i = none
  get_elem? (x ∷ xs) zero = some x
  get_elem? (x ∷ xs) (suc i) = get_elem? xs i

  -- The members that pass a test.
  abbrev pub keep : (A → Bool) → List A → List A
  keep p [] = []
  keep p (x ∷ xs) = if p x then x ∷ keep p xs else keep p xs

  abbrev pub All {κ} : (A → Type κ) → List A → Type κ
  All P [] = Unit
  All P (x ∷ xs) = P x × All P xs

  pub length-append : (xs ys : List A) → length (xs ++ ys) ≡ length xs + length ys
  length-append [] ys = omega arith
  length-append (x ∷ xs) ys = omega (arith, length-append xs ys)

  -- A function that only changes the order: Go's range over a map, or goroutines that finish in
  -- any order.
  abbrev pub Reorders : (List A → List A) → Type ℓ
  Reorders f = (xs : List A) → Permᴰ xs (f xs)

  pub All-perm {κ} : (P : A → Type κ) {xs ys : List A} → Permᴰ xs ys → All P xs → All P ys
  All-perm P Permᴰ.nil h = h
  All-perm P (Permᴰ.cons e p) h = (subst P e h.0, All-perm P p h.1)
  All-perm P (Permᴰ.swap e f) h = (subst P f h.1.0, (subst P e h.0, h.1.1))
  All-perm P (Permᴰ.trans p q) h = All-perm P q (All-perm P p h)

  pub keep-keep : (p q : A → Bool) (xs : List A) → keep p (keep q xs) ≡ keep (λ x. q x && p x) xs
  keep-keep p q [] = refl
  keep-keep p q (x ∷ xs) = ground (arith, keep-keep p q xs)

  -- Two tests that agree on the members keep the same ones.
  pub keep-congr : (p q : A → Bool) (xs : List A) → All (λ x. p x ≡ q x) xs → keep p xs ≡ keep q xs
  keep-congr p q [] h = refl
  keep-congr p q (x ∷ xs) h = ground (arith, keep-congr p q xs h.1)

  pub All-map {κ} : (P Q : A → Type κ) (xs : List A) → ((a : A) → P a → Q a) → All P xs → All Q xs
  All-map P Q [] f h = tt
  All-map P Q (x ∷ xs) f h = (f x h.0, All-map P Q xs f h.1)

  pub keep_all : {xs : List A} → keep (λ _. true) xs ≡ xs
  keep_all {xs = []} = refl
  keep_all {xs = x ∷ xs} = rw (keep_all {xs = xs})

  pub All-keep {κ} : (P : A → Type κ) (p : A → Bool) (xs : List A) → All P xs → All P (keep p xs)
  All-keep P p [] h = tt
  All-keep P p (x ∷ xs) h = ground (arith, All-keep P p xs h.1)

  pub All_of {κ} : {P : A → Type κ} → ((a : A) → P a) → (xs : List A) → All P xs
  All_of f [] = tt
  All_of f (x ∷ xs) = (f x, All_of f xs)

  pub keep-All {κ} :
      (P : A → Type κ) (p : A → Bool) (xs : List A)
      → All P (keep p xs)
      → All (λ x. p x ≡ true → P x) xs
  keep-All P p [] h = tt
  keep-All P p (x ∷ xs) h = elim (Bool-cases (p x)) [
    | inl kept ↦
        let h' : All P (x ∷ keep p xs) = rw kept at h in ((λ _. h'.0), keep-All P p xs h'.1)
    | inr dropped ↦ ((λ e. cc), keep-All P p xs (rw dropped at h))
  ]

  pub All-map2 {κ} :
      (P Q R : A → Type κ) (xs : List A)
      → ((a : A) → P a → Q a → R a)
      → All P xs
      → All Q xs
      → All R xs
  All-map2 P Q R [] f h k = tt
  All-map2 P Q R (x ∷ xs) f h k = (f x h.0 k.0, All-map2 P Q R xs f h.1 k.1)
