-- ===== src/Install.antt =====
-- cluster/install.go: the URL of a server's package, with helper.Tuple.
pub mod Nodes
pub mod Laws
use Prim.Native.String.{◌++◌}
use cbdynclusterd.Prelude.{
  String, Bool, true, false, Option, none, some, List, [], ◌∷◌, if◌then◌else◌, ◌==◌, eqb,
}
use cbdynclusterd.Prelude.Int.{ℤ, pos, negsuc, ltb_ℤ}
use cbdynclusterd.Prelude.Result.{Result, ok, panic, ◌>>=◌}
use cbdynclusterd.Version.{release_url, build_url}
use cbdynclusterd.Ssh.{OsInfo}
use cbdynclusterd.Manager.{atoi_or_zero}

-- FindStringSubmatch of the pattern in helper.Tuple: the texts of its groups, if it matches.
abbrev pub VersionMatch : Type 0
VersionMatch = String → Option (String × String × String)

-- helper.Tuple; without a match v is nil, and v[1] panics.
unfoldable pub tuple : VersionMatch → String → Result (ℤ × ℤ × ℤ)
tuple match version = elim (match version) [
  | none ↦ panic
  | some (a, b, c) ↦ ok (atoi_or_zero a, atoi_or_zero b, atoi_or_zero c)
]

abbrev is_int : ℤ → ℤ → Bool
is_int (pos m) (pos n) = eqb m n
is_int (pos m) (negsuc n) = false
is_int (negsuc m) (pos n) = false
is_int (negsuc m) (negsuc n) = eqb m n

unfoldable pub build_flavor : ℤ → ℤ → String
build_flavor major minor =
    if is_int major (pos 4)
    then (if ltb_ℤ minor (pos 5) then "sherlock" else "watson")
    else if is_int major (pos 5)
    then (if ltb_ℤ minor (pos 5) then "spock" else "vulcan")
    else if is_int major (pos 6)
    then (if ltb_ℤ minor (pos 5) then "alice" else "mad-hatter")
    else ""

unfoldable pub build_type : Bool → String
build_type is_enterprise = if is_enterprise then "enterprise" else "community"

-- The directory, and the start of the file's name.
unfoldable pub url_start : VersionMatch → String → String → Bool → Result String
url_start match version build is_enterprise =
    if build == ""
    then ok (
        release_url
        ++ (version
            ++ ("/couchbase-server-" ++ (build_type is_enterprise ++ ("-" ++ (version ++ "-"))))))
    else (do
      (major, minor, _) ← tuple match version
      ok (
          build_url
          ++ (build_flavor major minor
              ++ ("/"
                  ++ (build
                      ++ ("/couchbase-server-"
                          ++ (build_type is_enterprise
                              ++ ("-" ++ (version ++ ("-" ++ (build ++ "-")))))))))))

unfoldable pub package_url : VersionMatch → String → String → Bool → OsInfo → Result String
package_url match version build is_enterprise os_info = do
  url_str ← url_start match version build is_enterprise
  ok (url_str ++ (os_info.platform ++ ("." ++ (os_info.arch ++ ("." ++ os_info.package_type)))))
