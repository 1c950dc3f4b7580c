-- ===== src/Version.antt =====
-- daemon/nodes.go: server versions, and the image, package and address names made of them. Also
-- daemon/alias.go: version aliases.
pub mod Laws
pub mod Aliases
use Prim.Native.String.{◌++◌}
use cbdynclusterd.Prelude.{
  ℕ, String, Bool, Option, none, some, List, [], ◌∷◌, ltb, eqb, length, get_elem?, if◌then◌else◌,
  ◌==◌,
}
use cbdynclusterd.Prelude.Int.{ℤ, pos, negsuc, ltb_ℤ}
use cbdynclusterd.Prelude.Text.{split, atoi, itoa}
use cbdynclusterd.Prelude.Dict.{lookup}
use cbdynclusterd.Prelude.Result.{Error, failure, Result, ok, err, panic, ◌>>=◌}

pub data Edition : Type 0 where
  enterprise community : Edition

-- %s of an Edition
unfoldable pub edition_name : Edition → String
edition_name enterprise = "enterprise"
edition_name community = "community"

pub record NodeVersion : Type 0 where
  pub version : String
  pub flavor : String
  pub build : String
  pub edition : Edition

-- cluster/install.go
abbrev pub release_url : String
release_url = "http://latestbuilds.service.couchbase.com/builds/releases/"

abbrev pub build_url : String
build_url = "http://latestbuilds.service.couchbase.com/builds/latestbuilds/couchbase-server/"

unfoldable pub to_tag_name : NodeVersion → String
to_tag_name nv =
    if nv.build == ""
    then nv.version ++ ".centos7"
    else nv.version ++ ("-" ++ (nv.build ++ ".centos7"))

-- The registry is the variable dockerRegistry of daemon/daemon.go.
unfoldable pub to_image_name : String → NodeVersion → String
unfolding to_tag_name edition_name
to_image_name docker_registry nv =
    docker_registry
    ++ ("/dynclsr-couchbase_" ++ (edition_name nv.edition ++ ("_" ++ to_tag_name nv)))

unfoldable pub to_pkg_name : NodeVersion → String
unfolding edition_name
to_pkg_name nv =
    if nv.build == ""
    then "couchbase-server-"
      ++ (edition_name nv.edition ++ ("-" ++ (nv.version ++ "-centos7.x86_64.rpm")))
    else "couchbase-server-"
      ++ (edition_name nv.edition
          ++ ("-" ++ (nv.version ++ ("-" ++ (nv.build ++ "-centos7.x86_64.rpm")))))

unfoldable pub to_url : NodeVersion → String
to_url nv =
    if nv.build == ""
    then release_url ++ nv.version
    else build_url ++ (nv.flavor ++ ("/" ++ nv.build))

-- versionToFlavor[major][minor]
unfoldable pub version_to_flavor : ℤ → ℤ → Option String
version_to_flavor (pos major) (pos minor) =
    if eqb major 4
    then (if eqb minor 0 then some "sherlock" else if eqb minor 5 then some "watson" else none)
    else if eqb major 5
    then (if eqb minor 0 then some "spock" else if eqb minor 5 then some "vulcan" else none)
    else if eqb major 6
    then (if eqb minor 0 then some "alice" else if eqb minor 5 then some "mad-hatter" else none)
    else if eqb major 7
    then (if eqb minor 0 then some "cheshire-cat" else none)
    else none
version_to_flavor (pos major) (negsuc n) = none
version_to_flavor (negsuc n) minor = none

abbrev or_fail {ℓ} : {A : Type ℓ} → Option A → Error → Result A
or_fail none e = err e
or_fail (some a) e = ok a

-- xs[i]; out of range is a panic.
abbrev pub index {ℓ} : {A : Type ℓ} → List A → ℕ → Result A
index xs i = elim (get_elem? xs i) [ none ↦ panic | some x ↦ ok x ]

-- if minor >= 5 { minor = 5 } else { minor = 0 }
abbrev pub minor_step : ℤ → ℤ
minor_step minor = if ltb_ℤ minor (pos 5) then pos 0 else pos 5

unfoldable pub flavor_from_version : String → Result String
unfolding split atoi version_to_flavor
flavor_from_version version = do
  let version_split = split b'.' version
  major_text ← index version_split 0
  major ← or_fail (atoi major_text) (failure "Could not convert version major to int")
  minor_text ← index version_split 1
  minor ← or_fail (atoi minor_text) (failure "Could not convert version minor to int")
  or_fail (version_to_flavor major (minor_step minor))
      (failure (itoa major ++ ("." ++ (itoa (minor_step minor) ++ " is not a recognised flavor"))))

-- if len(versionParts) > 1 { nodeVersion.Build = versionParts[1] }
abbrev build_of : List String → String
build_of version_parts = elim (get_elem? version_parts 1) [ none ↦ "" | some b ↦ b ]

unfoldable pub parse_server_version : String → Bool → Result NodeVersion
unfolding split flavor_from_version
parse_server_version version use_ce = do
  let version_parts = split b'-' version
  first ← index version_parts 0
  flavor ← flavor_from_version first
  ok (record {
    version = first;
    flavor = flavor;
    build = build_of version_parts;
    edition = if use_ce then community else enterprise;
  })

pub record AliasVersion : Type 0 where
  pub release : String
  pub stable : String

-- map[string]map[string]AliasVersion
abbrev pub Products : Type 0
Products = List (String × List (String × AliasVersion))

-- p[product][version]: the zero AliasVersion if a key is missing
unfoldable pub product_version : Products → String → String → AliasVersion
unfolding lookup
product_version p product version = elim (lookup product p) [
  | none ↦ record { release = ""; stable = "" }
  | some versions ↦ elim (lookup version versions) [
    | none ↦ record { release = ""; stable = "" }
    | some v ↦ v
  ]
]

-- The build that an alias names, empty if it names none.
unfoldable pub server_build : Products → String → String → String
unfolding product_version
server_build p version kind =
    if kind == "release"
    then (product_version p "couchbase-server" version).release
    else if kind == "stable"
    then (product_version p "couchbase-server" version).stable
    else ""

abbrev pub found_build : String → String → Result String
found_build version build =
    if build == "" then err (failure ("No build version found for " ++ version)) else ok build

-- The argument `products` is what GetProductsMap returns: the file on disk, parsed by yaml.
unfoldable pub alias_server_version : Result Products → String → Result String
unfolding split server_build
alias_server_version products version = elim (split b'-' version) [
  | [] ↦ ok version
  | base ∷ rest ↦ elim rest [
    | [] ↦ ok version
    | kind ∷ more ↦
        if ltb 2 (length (split b'.' base))
        then ok version
        else do p ← products; found_build version (server_build p base kind)
  ]
]
