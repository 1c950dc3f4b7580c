-- ===== src/Tests/Versions.antt =====
-- An alias, and versions that are none.
use cbdynclusterd.Prelude.{String, [], ◌∷◌, ◌≡◌, ◌≢◌, ◌↔◌, ◌≤◌, ◌<◌, length, refl}
use Prim.Native.String.{◌++◌}
use cbdynclusterd.Prelude.Text.{split}
use cbdynclusterd.Prelude.Result.{failure, ok, err}
use cbdynclusterd.Prelude.Dict.{lookup}
use cbdynclusterd.Version.{AliasVersion, Products, server_build, alias_server_version}
use cbdynclusterd.Version.Aliases.{alias_server_version_cases}

abbrev products : Products
products =
    ("couchbase-server", ("6.5", record { release = "6.5.1-6299"; stable = "6.5.2-6500" }) ∷ [])
    ∷ []

abbrev listed : AliasVersion
listed = record { release = "6.5.1-6299"; stable = "6.5.2-6500" }

abbrev made : String → String
made kind = "6.5" ++ ("-" ++ kind)

alias_server_version_cases_example :
    (alias_server_version (ok products) "6.5" ≡ ok "6.5")
    × (2 < length (split b'.' "6.5")
        → alias_server_version (ok products) (made "beta") ≡ ok (made "beta"))
    × (length (split b'.' "6.5") ≤ 2
        → ((alias_server_version (ok products) "6.5-release" ≡ ok "6.5.1-6299")
            ↔ ((listed.release ≡ "6.5.1-6299") × (◌≢◌ {A = String} "6.5.1-6299" "")))
          × ((alias_server_version (ok products) "6.5-stable" ≡ ok "6.5.1-6299")
              ↔ ((listed.stable ≡ "6.5.1-6299") × (◌≢◌ {A = String} "6.5.1-6299" "")))
          × (◌≢◌ {A = String} "beta" "release"
              → ◌≢◌ {A = String} "beta" "stable"
              → alias_server_version (ok products) (made "beta")
                ≡ err (failure ("No build version found for " ++ made "beta"))))
unfolding lookup
alias_server_version_cases_example =
    alias_server_version_cases (ok products) products (("6.5", listed) ∷ []) listed "6.5" "beta"
      "6.5.1-6299" (refl, (refl, (refl, tt))) (refl, (refl, (refl, (refl, tt)))) refl refl

released : alias_server_version (ok products) "6.5-release" ≡ ok "6.5.1-6299"
unfolding alias_server_version split server_build
released = refl

numbered : alias_server_version (ok products) "6.5.1-6299" ≡ ok "6.5.1-6299"
unfolding alias_server_version split
numbered = refl
