-- ===== src/Version/Laws.antt =====
-- Which versions have a flavor, that is, a code name of their release.
use cbdynclusterd.Prelude.{
  String, Option, none, some, List, [], ◌∷◌, ◌≡◌, ◌⊎◌, inl, inr, refl, arith, Option-cases, ◌↔◌,
}
use cbdynclusterd.Prelude.Int.{ℤ, pos, negsuc, ◌≤ℤ◌}
use cbdynclusterd.Prelude.Text.{split, atoi}
use cbdynclusterd.Prelude.Result.{Error, ok, panic}
use cbdynclusterd.Version.{version_to_flavor, minor_step, or_fail, flavor_from_version}

-- The major and minor numbers of the releases that have a flavor.
abbrev HasFlavor : ℤ → ℤ → Type 0
HasFlavor major minor = ((pos 4 ≤ℤ major) × (major ≤ℤ pos 6)) ⊎ ((major ≡ pos 7) × (minor ≤ℤ pos 4))

or_fail-eq-ok : {A : Type 0} (o : Option A) (e : Error) (a : A) → or_fail o e ≡ ok a → o ≡ some a
or_fail-eq-ok none e a h = cc
or_fail-eq-ok (some b) e a h = cc

flavor-HasFlavor :
    (major minor : ℤ) (f : String)
    → version_to_flavor major (minor_step minor) ≡ some f
    → HasFlavor major minor
unfolding version_to_flavor
flavor-HasFlavor (pos major) (pos minor) f h = ground arith
flavor-HasFlavor (pos major) (negsuc minor) f h = ground arith
flavor-HasFlavor (negsuc major) minor f h = cc

no_flavor :
    (major minor : ℤ)
    → version_to_flavor major (minor_step minor) ≡ none
    → HasFlavor major minor
    → ⊥
unfolding version_to_flavor
no_flavor (pos major) (pos minor) e h = ground arith
no_flavor (pos major) (negsuc minor) e h = ground arith
no_flavor (negsuc major) minor e h = ground arith

HasFlavor-flavor :
    (major minor : ℤ)
    → HasFlavor major minor
    → (f : String) × (version_to_flavor major (minor_step minor) ≡ some f)
HasFlavor-flavor major minor h = elim (Option-cases (version_to_flavor major (minor_step minor))) [
  | inl e ↦ absurd (no_flavor major minor e h)
  | inr known ↦ known
]

-- A version whose first two parts are numbers has a flavor exactly if the first is 4, 5 or 6, or if
-- it is 7 and the second is at most 4.
flavor_from_version_iff :
    (version a b : String) (rest : List String) (major minor : ℤ)
    → split b'.' version ≡ a ∷ b ∷ rest
    → atoi a ≡ some major
    → atoi b ≡ some minor
    → ((f : String) × (flavor_from_version version ≡ ok f)) ↔ HasFlavor major minor
unfolding flavor_from_version
flavor_from_version_iff version a b rest major minor parts first second = (
  λ (f, h). flavor-HasFlavor major minor f (
      or_fail-eq-ok (version_to_flavor major (minor_step minor)) _ f
        (rw (parts, first, second) at h)),
  λ h. let (f, e) = HasFlavor-flavor major minor h in (f, rw (parts, first, second, e) refl),
)

-- A version without a dot that is a number is a panic.
flavor_panics :
    (version a : String) (major : ℤ)
    → split b'.' version ≡ a ∷ []
    → atoi a ≡ some major
    → flavor_from_version version ≡ panic
unfolding flavor_from_version
flavor_panics version a major parts first = rw (parts, first) refl
