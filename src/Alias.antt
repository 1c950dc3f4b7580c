-- ===== src/Alias.antt =====
-- daemon/alias.go: the repository with the product aliases. git (go-git), the file system and the
-- YAML parser are a parameter, `AliasSource`. Log lines are left out.
use Prim.Native.String.{◌++◌}
use cbdynclusterd.Prelude.{String, Bool, if◌then◌else◌}
use cbdynclusterd.Prelude.Result.{Error, Result, ok, err, panic}
use cbdynclusterd.Prelude.Exec.{Exec, ◌>>=◌}
use cbdynclusterd.Version.{Products}

pub record AliasSource : Type 1 where
  pub World : Type 0
  pub Repository : Type 0
  pub Worktree : Type 0
  -- the path and the URL
  pub plain_clone : String → String → Exec World (Unit {0})
  pub plain_open : String → Exec World Repository
  pub worktree : Repository → Exec World Worktree
  -- from the remote of this name
  pub pull : Worktree → String → Exec World (Unit {0})
  -- errors.Is(err, git.ErrRepositoryAlreadyExists), errors.Is(err, git.NoErrAlreadyUpToDate)
  pub is_already_exists : Error → Bool
  pub is_up_to_date : Error → Bool
  pub read_file : String → World → Result String
  pub unmarshal_yaml : String → Result Products

abbrev pub alias_repo_path : String
alias_repo_path = "/opt/cbdynclusterd/alias"

-- ioutil.ReadFile's error is only logged; the data is then empty.
abbrev data_or_empty : Result String → Result String
data_or_empty (ok data_read) = ok data_read
data_or_empty (err e) = ok ""
data_or_empty panic = panic

module _ (src : AliasSource) where
  abbrev pulled : Result (Unit {0}) → Result (Unit {0})
  pulled (ok u) = ok u
  pulled (err e) = if src.is_up_to_date e then ok tt else err e
  pulled panic = panic

  abbrev pull_worktree : src.Worktree → Exec src.World (Unit {0})
  pull_worktree w s = let (r, s') = src.pull w "origin" s in (pulled r, s')

  unfoldable pub pull_config_repo : Exec src.World (Unit {0})
  pull_config_repo = do r ← src.plain_open alias_repo_path; w ← src.worktree r; pull_worktree w

  abbrev pub after_clone : Result (Unit {0}) → Exec src.World (Unit {0})
  after_clone (ok u) s = (ok u, s)
  after_clone (err e) s = if src.is_already_exists e then pull_config_repo s else (err e, s)
  after_clone panic s = (panic, s)

  unfoldable pub get_config_repo : Exec src.World (Unit {0})
  get_config_repo s =
      let (r, s') =
        src.plain_clone alias_repo_path "https://github.com/couchbaselabs/cb-alias.git" s in
      after_clone r s'

  abbrev parse_yaml : Result String → Result Products
  parse_yaml (ok text) = src.unmarshal_yaml text
  parse_yaml (err e) = err e
  parse_yaml panic = panic

  unfoldable pub get_products_map : src.World → Result Products
  get_products_map s =
      parse_yaml (data_or_empty (src.read_file (alias_repo_path ++ "/products.yml") s))

  abbrev after_refresh : Result (Unit {0}) → src.World → Result Products
  after_refresh (ok u) s = get_products_map s
  after_refresh (err e) s = get_products_map s
  after_refresh panic s = panic

  -- What HttpCreateCluster resolves aliases with: GetConfigRepo's error is only logged.
  unfoldable pub refreshed_products : Exec src.World Products
  refreshed_products s = let (r, s') = get_config_repo s in (after_refresh r s', s')
