-- ===== src/Version/Aliases.antt =====
-- What aliasServerVersion of daemon/nodes.go makes of a version.
use Prim.Native.String.{◌++◌}
use cbdynclusterd.Prelude.{
  List, some, String, true, false, [], ◌∷◌, ◌≡◌, ◌≢◌, ◌↔◌, ◌≤◌, ◌<◌, ◌∙◌, ap, sym, refl, arith,
  length, ltb, eqb, ◌==◌, eq_iff, Bool-cases, inl, inr,
}
use cbdynclusterd.Prelude.Text.{split}
use cbdynclusterd.Prelude.Chars.{AllChars, split-single, split-append}
use cbdynclusterd.Prelude.Result.{failure, err, Result, ok, ok-injective}
use cbdynclusterd.Prelude.Dict.{lookup}
use cbdynclusterd.Version.{
  AliasVersion, product_version, Products, server_build, found_build, alias_server_version,
}

-- no dash
abbrev pub IsDashless : String → Type 0
IsDashless = AllChars (λ c. eqb c b'-' ≡ false)

split-dash :
    (base kind : String)
    → IsDashless base
    → IsDashless kind
    → split b'-' (base ++ ("-" ++ kind)) ≡ base ∷ kind ∷ []
split-dash base kind h k =
    split-append "-" base kind h ∙ ap (λ r. base ∷ r) (split-single b'-' kind k)

found_build_iff :
    (version build found : String)
    → (found_build version build ≡ ok found) ↔ ((build ≡ found) × (found ≢ ""))
found_build_iff version build found = elim (Bool-cases (build == "")) [
  | inl blank ↦ (
    λ h. cc (rw blank at h),
    λ (same, named). absurd (named (sym same ∙ (eq_iff build "").0 blank)),
  )
  | inr filled ↦ (
    λ h.
        let same : build ≡ found = ok-injective (rw filled at h) in
        (same, λ e. cc ((eq_iff build "").1 (same ∙ e))),
    λ (same, named). rw filled (ap ok same),
  )
]

release-IsDashless : IsDashless "release"
release-IsDashless = (refl, (refl, (refl, (refl, (refl, (refl, (refl, tt)))))))

stable-IsDashless : IsDashless "stable"
stable-IsDashless = (refl, (refl, (refl, (refl, (refl, (refl, tt))))))

not_equal : (s t : String) → s ≢ t → s == t ≡ false
not_equal s t h = ground (arith, eq_iff s t)

product_version_lem :
    (p : Products) (base : String) (versions : List (String × AliasVersion)) (v : AliasVersion)
    → lookup "couchbase-server" p ≡ some versions
    → lookup base versions ≡ some v
    → product_version p "couchbase-server" base ≡ v
unfolding product_version
product_version_lem p base versions v h k = rw (h, product_version) (rw (k, product_version) refl)

build_of_other :
    (p : Products) (base kind : String)
    → kind ≢ "release"
    → kind ≢ "stable"
    → server_build p base kind ≡ ""
unfolding server_build
build_of_other p base kind r s = rw (not_equal kind "release" r, not_equal kind "stable" s) refl

module _ (p : Products) (base : String) (h : IsDashless base) where
  few_parts :
      (kind : String)
      → IsDashless kind
      → length (split b'.' base) ≤ 2
      → alias_server_version (ok p) (base ++ ("-" ++ kind))
        ≡ found_build (base ++ ("-" ++ kind)) (server_build p base kind)
  unfolding alias_server_version
  few_parts kind k few =
      let short : ltb 2 (length (split b'.' base)) ≡ false = ground arith in
      rw (split-dash base kind h k, alias_server_version) (rw short refl)

  kind_iff :
      (kind val build : String)
      → IsDashless kind
      → length (split b'.' base) ≤ 2
      → server_build p base kind ≡ val
      → (alias_server_version (ok p) (base ++ ("-" ++ kind)) ≡ ok build)
        ↔ ((val ≡ build) × (build ≢ ""))
  kind_iff kind val build k few e =
      rw (few_parts kind k few, e) (found_build_iff (base ++ ("-" ++ kind)) val build)

release_is :
    (p : Products) (base : String) (v : AliasVersion)
    → product_version p "couchbase-server" base ≡ v
    → (server_build p base "release" ≡ v.release) × (server_build p base "stable" ≡ v.stable)
unfolding server_build
release_is p base v e =
    (ap (λ (x : AliasVersion). x.release) e, ap (λ (x : AliasVersion). x.stable) e)

-- A version without a dash is left as it is, and so is a version base-kind, where neither text has a
-- dash, if the base has more than two parts between dots, whatever the products are. If the base has
-- at most two parts: base-release and base-stable become the release and the stable build that the
-- products list for the base of couchbase-server, exactly if that is not empty; and any other kind
-- is an error.
pub alias_server_version_cases :
    (products : Result Products) (p : Products) (versions : List (String × AliasVersion))
    (v : AliasVersion) (base kind build : String)
    → IsDashless base
    → IsDashless kind
    → lookup "couchbase-server" p ≡ some versions
    → lookup base versions ≡ some v
    → (alias_server_version products base ≡ ok base)
      × (2 < length (split b'.' base)
          → alias_server_version products (base ++ ("-" ++ kind)) ≡ ok (base ++ ("-" ++ kind)))
      × (length (split b'.' base) ≤ 2
          → ((alias_server_version (ok p) (base ++ "-release") ≡ ok build)
              ↔ ((v.release ≡ build) × (build ≢ "")))
            × ((alias_server_version (ok p) (base ++ "-stable") ≡ ok build)
                ↔ ((v.stable ≡ build) × (build ≢ "")))
            × (kind ≢ "release"
                → kind ≢ "stable"
                → alias_server_version (ok p) (base ++ ("-" ++ kind))
                  ≡ err (failure ("No build version found for " ++ (base ++ ("-" ++ kind))))))
unfolding alias_server_version
alias_server_version_cases products p versions v base kind build h k listed known = (
  rw (split-single b'-' base h, alias_server_version) refl,
  λ many.
      let long : ltb 2 (length (split b'.' base)) ≡ true = ground arith in
      rw (split-dash base kind h k, alias_server_version) (rw long refl),
  λ few.
      let (released, stable) =
        release_is p base v (product_version_lem p base versions v listed known) in
      (
        kind_iff p base h "release" v.release build release-IsDashless few released,
        kind_iff p base h "stable" v.stable build stable-IsDashless few stable,
        λ r s.
            few_parts p base h kind k few
            ∙ ap (found_build (base ++ ("-" ++ kind))) (build_of_other p base kind r s),
      ),
)
