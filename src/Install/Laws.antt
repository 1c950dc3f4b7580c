-- ===== src/Install/Laws.antt =====
-- What cluster/install.go and daemon/clusters.go make of a version: two descriptions of the place
-- of a package.
use text.Mathlib.TextLemmas.{append_assoc}
use Prim.Native.String.{◌++◌}
use cbdynclusterd.Prelude.{
  String, Bool, true, false, Bool-cases, some, ◌≡◌, ◌⊎◌, inl, inr, refl, sym, arith, ◌==◌,
}
use cbdynclusterd.Prelude.Int.{ℤ, pos, negsuc}
use cbdynclusterd.Prelude.Result.{ok}
use cbdynclusterd.Version.{
  NodeVersion, Edition, community, enterprise, edition_name, version_to_flavor, minor_step, to_url,
  to_pkg_name,
}
use cbdynclusterd.Images.{pkg_url}
use cbdynclusterd.Ssh.{OsInfo}
use cbdynclusterd.Install.{VersionMatch, tuple, build_flavor, build_type, url_start, package_url}

abbrev pub centos7 : OsInfo
centos7 = record { arch = "x86_64"; platform = "centos7"; package_type = "rpm" }

-- Where the daemon's table has a flavor for a version, cluster/install.go has the same one, but
-- for version 7: there its flavor is empty.
build_flavor-version_to_flavor :
    (major minor : ℤ) (flavor : String)
    → version_to_flavor major (minor_step minor) ≡ some flavor
    → (build_flavor major minor ≡ flavor) ⊎ ((major ≡ pos 7) × (build_flavor major minor ≡ ""))
unfolding version_to_flavor build_flavor
build_flavor-version_to_flavor (pos m) minor flavor h = ground arith
build_flavor-version_to_flavor (negsuc m) minor flavor h = cc

abbrev pub is_enterprise : Edition → Bool
is_enterprise community = false
is_enterprise enterprise = true

kind : (e : Edition) → build_type (is_enterprise e) ≡ edition_name e
unfolding build_type edition_name
kind community = refl
kind enterprise = refl

joined : (name : String) → "/" ++ ("couchbase-server-" ++ name) ≡ "/couchbase-server-" ++ name
joined name = sym (append_assoc "/" "couchbase-server-" name)

-- For CentOS 7 and a version whose flavor is the one that the daemon parsed, cluster/install.go
-- builds the URL at which ensureImageExists looks for the package, released or not.
pub package_url-pkg_url :
    (match : VersionMatch) (nv : NodeVersion) (major minor patch : ℤ)
    → tuple match nv.version ≡ ok (major, minor, patch)
    → build_flavor major minor ≡ nv.flavor
    → package_url match nv.version nv.build (is_enterprise nv.edition) centos7 ≡ ok (pkg_url nv)
unfolding package_url url_start pkg_url to_url to_pkg_name
package_url-pkg_url match nv major minor patch parsed agree = elim (Bool-cases (nv.build == "")) [
  | inl released ↦ rw (released, kind nv.edition) (simp (append_assoc, joined))
  | inr built ↦ rw (built, parsed, agree, kind nv.edition) (simp (append_assoc, joined))
]
