-- ===== src/Manager.antt =====
-- cluster/manager.go: the manager of the nodes of one Couchbase cluster. The nodes are objects that
-- several lists point to: they stand in one list, and a pointer is an index into it. The entry point
-- epNode is always the node 0. What waits is in `Setup`, and the
-- operations on a cluster are in `Actions`.
pub mod Actions
pub mod Setup
pub mod Laws
pub mod Rebalancing
pub mod Joining
pub mod Success
pub mod Spec
use Prim.Native.String.{◌++◌}
use cbdynclusterd.Prelude.{
  ℕ, zero, suc, ◌+◌, String, Bool, true, false, not, Option, none, some, List, [], ◌∷◌, get_elem?,
  length, eqb, keep, if◌then◌else◌, ◌==◌,
}
use cbdynclusterd.Prelude.Int.{ℤ, pos, ◌+ℤ◌}
use cbdynclusterd.Prelude.Text.{split, atoi, itoa, contains}
use cbdynclusterd.Prelude.Result.{Error, failure, message, Result, ok, err, panic}
use cbdynclusterd.Prelude.Exec.{Exec, pure, lift, reads, raise, for_each, ◌>>=◌, ◌>>◌}
use cbdynclusterd.Prelude.Await.{Waiting}
use cbdynclusterd.Rest.{Cred, Net}
use cbdynclusterd.Server.{
  Server, RespNode, UserOption, get_info, stop_rebalance, delete_bucket, create_user,
  enable_developer_preview, create_fts_index, create_n1ql_index,
}
use cbdynclusterd.Ssh.{
  Ssh, Regexp, MemUsedStats, run_ssh, node_mem_used_stats, network_reset, network_delay,
}
use cbdynclusterd.Peer.{
  RefInfo, Decoder, Place, asking, update_node, membership, get_buckets, fail_over_and_eject_all,
}

-- helper.BucketOption
pub record BucketOption : Type 0 where
  pub name : String
  pub bucket_type : String
  pub password : String

-- cluster.Config: the fields that are read. `user` and `bucket` are nil or a pointer.
pub record ManagerConfig : Type 0 where
  pub memory_quota : String
  pub user : Option UserOption
  pub storage_mode : String
  pub bucket : Option BucketOption
  pub use_hostname : Bool
  pub use_dev_preview : Bool

pub record VersionTuple : Type 0 where
  pub major : ℤ
  pub minor : ℤ
  pub patch : ℤ

pub record Site (net : Net) : Type 0 where
  pub world : net.World
  pub nodes : List Server

-- A write out of bounds changes nothing.
abbrev pub set {ℓ} : {A : Type ℓ} → List A → ℕ → A → List A
set [] i v = []
set (x ∷ xs) zero v = v ∷ xs
set (x ∷ xs) (suc i) v = x ∷ set xs i v

-- 0, ..., n - 1, counted from `i`
unfoldable pub indices {ℓ} : {A : Type ℓ} → ℕ → List A → List ℕ
indices i [] = []
indices i (x ∷ xs) = i ∷ indices (suc i) xs

-- n, _ := strconv.Atoi(s); after an error n is 0, or the nearest int if the text is out of range,
-- which is the one difference to this.
abbrev pub atoi_or_zero : String → ℤ
atoi_or_zero s = elim (atoi s) [ none ↦ pos 0 | some n ↦ n ]

unfoldable pub parse_version : List String → Result VersionTuple
parse_version (a ∷ b ∷ c ∷ []) =
    ok (record { major = atoi_or_zero a; minor = atoi_or_zero b; patch = atoi_or_zero c })
parse_version _ = err (failure "Unable to parse server version")

abbrev pub no_info : RefInfo
no_info = record { cluster_version = ""; pools = [] }

-- The nodes of each existing cluster, by the URI of its first pool.
abbrev pub Existing : Type 0
Existing = List (String × List ℕ)

abbrev push : List ℕ → ℕ → List ℕ
push [] n = n ∷ []
push (m ∷ ms) n = m ∷ push ms n

-- existingCluster[refInfo.ClusterId] = append(existingCluster[refInfo.ClusterId], n)
unfoldable pub add_existing : String → ℕ → Existing → Existing
add_existing id n [] = (id, n ∷ []) ∷ []
add_existing id n ((j, ns) ∷ gs) =
    if j == id then (j, push ns n) ∷ gs else (j, ns) ∷ add_existing id n gs

-- The pool of an answer that joins its node to an existing cluster, if it has one.
unfoldable pub group_of : ℕ → List String → Existing → Existing
group_of n [] gs = gs
group_of n (uri ∷ uris) gs = if uri == "" then gs else add_existing uri n gs

-- admin's login that clearSingleCluster uses for the entry point
abbrev admin_login : Server → Cred
admin_login n = record {
  username = "Administrator";
  password = "password";
  hostname = n.host_name;
  port = pos 8091;
}

abbrev drop_error : Result (Unit {0}) → Result (Unit {0})
drop_error (ok u) = ok u
drop_error (err e) = ok tt
drop_error panic = panic

module _ (net : Net) where
  abbrev visit : {A : Type 0} → Option Server → ℕ → Exec (Place net) A → Exec (Site net) A
  visit none i m s = (panic, s)
  visit (some n) i m s =
      let (r, p) = m (record { world = s.world; node = n }) in
      (r, record { world = p.world; nodes = set s.nodes i p.node })

  -- A method call on the node that `i` points to.
  unfoldable pub at : {A : Type 0} → ℕ → Exec (Place net) A → Exec (Site net) A
  at i m s = visit (get_elem? s.nodes i) i m s

  -- An action on the world that reads the node.
  abbrev pub ask : {A : Type 0} → ℕ → (Server → Exec net.World A) → Exec (Site net) A
  ask i f = at i (asking net f)

  -- A call whose error is dropped.
  abbrev pub ignoring : Exec (Place net) (Unit {0}) → Exec (Place net) (Unit {0})
  ignoring m p = let (r, p') = m p in (drop_error r, p')

  module _ (dec : Decoder) where
    unfoldable pub get_ep_node : Bool → List ℕ → Exec (Site net) ℕ
    get_ep_node force [] = raise (failure "Could not find active nodes")
    get_ep_node force (i ∷ is) = do
      at i (ignoring (update_node net dec force))
      state ← at i (reads (λ p. membership p.node))
      if state == "active" then pure i else get_ep_node force is

    unfoldable pub get_service_node : Bool → String → List ℕ → Exec (Site net) ℕ
    get_service_node force service [] = raise (failure ("Could not find " ++ (service ++ " nodes")))
    get_service_node force service (i ∷ is) = do
      at i (ignoring (update_node net dec force))
      services ← at i (reads (λ p. ok p.node.services))
      if contains services service then pure i else get_service_node force service is

    -- json.Unmarshal([]byte(info), &refInfo)
    abbrev decoded : RefInfo × Option Error → Result RefInfo
    decoded (info, none) = ok info
    decoded (info, some e) = err e

    unfoldable pub get_version : ℕ → Exec (Site net) VersionTuple
    get_version i = do
      at i (ignoring (update_node net dec false))
      info ← ask i (get_info net)
      ref_info ← lift (decoded (dec.ref_info no_info info))
      lift (parse_version (split b'.' ref_info.cluster_version))

    -- The first loop of StartCluster. One RefInfo serves for all nodes, so what an answer leaves out
    -- stays from the answer before.
    unfoldable pub find_existing : RefInfo → List ℕ → Existing → Exec (Site net) Existing
    find_existing old [] gs = pure gs
    find_existing old (i ∷ is) gs = do
      info ← ask i (get_info net)
      ref_info ← lift (decoded (dec.ref_info old info))
      find_existing ref_info is (group_of i ref_info.pools gs)

    -- The error of getEpNode is overwritten, and then its nil node is used.
    abbrev nil_on_error : Result ℕ → Result ℕ
    nil_on_error (ok i) = ok i
    nil_on_error (err e) = panic
    nil_on_error panic = panic

    abbrev ep_node_or_nil : List ℕ → Exec (Site net) ℕ
    ep_node_or_nil nodes s = let (r, s') = get_ep_node true nodes s in (nil_on_error r, s')

    unfoldable pub clear_single_cluster :
        Ssh net → Waiting RespNode → List ℕ → Exec (Site net) (Unit {0})
    clear_single_cluster ssh w nodes = do
      epnode ← ep_node_or_nil nodes
      buckets ← at epnode (get_buckets net dec)
      for_each tt (λ b. ask epnode (λ n. delete_bucket net n b)) buckets
      login ← at epnode (reads (λ p. ok (admin_login p.node)))
      at epnode (fail_over_and_eject_all net dec w login)
      ask epnode (
          run_ssh net ssh
            "curl -d 'gen_server:cast(ns_cluster, leave).' -u Administrator:password http://localhost:8091/diag/eval")
      pure tt

    -- m.Nodes[m.epNode].HostName
    unfoldable pub get_entry_point : Exec (Site net) String
    get_entry_point = at 0 (reads (λ p. ok p.node.host_name))
