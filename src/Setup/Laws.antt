-- ===== src/Setup/Laws.antt =====
-- What the set-up of a cluster is given, and what it answers.
use Prim.Native.String.{◌++◌, len, slice}
use cbdynclusterd.Prelude.{
  some-injective, ℕ, zero, suc, String, true, Option, none, some, List, [], ◌∷◌, length, get_elem?,
  eqb, leb, ◌≤◌, false, Bool-cases, inl, inr, ◌≡◌, refl, sym, ◌∙◌, ap, subst, arith,
}
use cbdynclusterd.Prelude.Result.{Result, ok, err, panic, ok-injective, >>=-eq-ok, guard-eq-ok}
use cbdynclusterd.Prelude.Run.{after_result-eq-ok}
use cbdynclusterd.Prelude.Await.{Waiting}
use cbdynclusterd.Meta.{Storage}
use cbdynclusterd.Context.{Context}
use cbdynclusterd.Docker.{Docker}
use cbdynclusterd.Clusters.{Cluster, Node, Group, Daemon, get_cluster}
use cbdynclusterd.Rest.{Net}
use cbdynclusterd.Server.{Server, RespNode}
use cbdynclusterd.Ssh.{Ssh}
use cbdynclusterd.Peer.{Decoder}
use cbdynclusterd.WireJson.{ClusterJson, jsonify_cluster}
use cbdynclusterd.Requests.{host_name_of, Request, reply, respond, get_http_context}
use cbdynclusterd.Setup.{
  CreateClusterSetupJson, host_to_use, setup_node, setup_nodes, setup_cluster, cluster_to_setup,
  http_setup_cluster, respond_when_done, after_result_of,
}

-- What goes under the name of a server: with use_hostname the container's name but for its first
-- character, with the domain; or else with use_ipv6 the IPv6 address; or else the IPv4 address.
abbrev pub IsNamed : CreateClusterSetupJson → Node → String → Type 0
IsNamed conf n host =
    (conf.use_hostname ≡ true
      → (1 ≤ len n.container_name)
        × (host ≡ slice n.container_name 1 (len n.container_name) ++ ".couchbase.com"))
    × (conf.use_hostname ≡ false → conf.use_ipv6 ≡ true → host ≡ n.ipv6_address)
    × (conf.use_hostname ≡ false → conf.use_ipv6 ≡ false → host ≡ n.ipv4_address)

-- The server for the node and the service at one place of the lists. All its logins go to the IPv4
-- address, also if it is not its name.
abbrev pub Describes : CreateClusterSetupJson → List Node → List String → ℕ → Server → Type 0
Describes conf nodes services i v =
    (n : Node) × (get_elem? nodes i ≡ some n)
    × (get_elem? services i ≡ some v.services)
    × IsNamed conf n v.host_name
    × (v.ssh_login.hostname ≡ n.ipv4_address)
    × (v.rest_login.hostname ≡ n.ipv4_address)
    × (v.n1ql_login.hostname ≡ n.ipv4_address)
    × (v.fts_login.hostname ≡ n.ipv4_address)

host_to_use-IsNamed :
    (conf : CreateClusterSetupJson) (n : Node) (host : String)
    → host_to_use conf n ≡ ok host
    → IsNamed conf n host
unfolding host_to_use host_name_of
host_to_use-IsNamed conf n host h = (
  λ named. elim (Bool-cases (leb 1 (len n.container_name))) [
    | inl long ↦ (ground arith, sym (ok-injective (rw (named, long) at h)))
    | inr short ↦ cc (rw (named, short) at h)
  ],
  λ unnamed six. sym (ok-injective (rw (unnamed, six) at h)),
  λ unnamed four. sym (ok-injective (rw (unnamed, four) at h)),
)

eqb-eq : (a b : ℕ) → eqb a b ≡ true → a ≡ b
eqb-eq a b h = ground arith

setup_node-eq-ok :
    (conf : CreateClusterSetupJson) (n : Node) (service : String) (v : Server)
    → setup_node conf n service ≡ ok v
    → (v.services ≡ service)
      × IsNamed conf n v.host_name
      × (v.ssh_login.hostname ≡ n.ipv4_address)
      × (v.rest_login.hostname ≡ n.ipv4_address)
      × (v.n1ql_login.hostname ≡ n.ipv4_address)
      × (v.fts_login.hostname ≡ n.ipv4_address)
unfolding setup_node
setup_node-eq-ok conf n service v h =
    let (hostname, used, rest) = >>=-eq-ok (host_to_use conf n) _ h in
    let built = ok-injective rest in
    (
      sym (ap (λ (x : Server). x.services) built),
      host_to_use-IsNamed conf n v.host_name (used ∙ ap (λ (x : Server). ok x.host_name) built),
      sym (ap (λ (x : Server). x.ssh_login.hostname) built),
      sym (ap (λ (x : Server). x.rest_login.hostname) built),
      sym (ap (λ (x : Server). x.n1ql_login.hostname) built),
      sym (ap (λ (x : Server). x.fts_login.hostname) built),
    )

Describes-cons :
    (conf : CreateClusterSetupJson) (n : Node) (ns : List Node) (s : String) (ss : List String)
    (first : Server) (rest : List Server)
    → setup_node conf n s ≡ ok first
    → ((i : ℕ) (v : Server) → get_elem? rest i ≡ some v → Describes conf ns ss i v)
    → (i : ℕ) (v : Server) → get_elem? (first ∷ rest) i ≡ some v
    → Describes conf (n ∷ ns) (s ∷ ss) i v
Describes-cons conf n ns s ss first rest built each zero v found =
    let built_of = setup_node-eq-ok conf n s v (built ∙ ap ok (some-injective found)) in
    (n, refl, ap some (sym built_of.0), built_of.1, built_of.2, built_of.3, built_of.4, built_of.5)
Describes-cons conf n ns s ss first rest built each (suc i) v found = each i v found

-- What is said of all servers.
abbrev Fits : CreateClusterSetupJson → List Node → List String → List Server → Type 0
Fits conf nodes services servers =
    (length servers ≡ length services)
    × ((i : ℕ) (v : Server) → get_elem? servers i ≡ some v → Describes conf nodes services i v)

-- If the servers for a cluster can be built, there is one for each service, in the order of the
-- services: its logins go to the IPv4 address of the node at the same place, and its name is what
-- the options ask for: the name of this node's container, without the first character and with
-- .couchbase.com, or its IPv6 or IPv4 address.
pub setup_nodes-eq-ok :
    (conf : CreateClusterSetupJson) (nodes : List Node) (services : List String)
    (servers : List Server)
    → setup_nodes conf nodes services ≡ ok servers
    → (length servers ≡ length services)
      × ((i : ℕ) (v : Server) → get_elem? servers i ≡ some v → Describes conf nodes services i v)
unfolding setup_nodes
setup_nodes-eq-ok conf nodes [] servers h =
    subst (Fits conf nodes []) (ok-injective h) (refl, λ i v found. cc)
setup_nodes-eq-ok conf [] (s ∷ ss) servers h = cc
setup_nodes-eq-ok conf (n ∷ ns) (s ∷ ss) servers h =
    let (v, first, h1) = >>=-eq-ok (setup_node conf n s) _ h in
    let (vs, rest, whole) = >>=-eq-ok (setup_nodes conf ns ss) _ h1 in
    let (same, each) = setup_nodes-eq-ok conf ns ss vs rest in
    subst (Fits conf (n ∷ ns) (s ∷ ss)) (ok-injective whole)
      (ap suc same, Describes-cons conf n ns s ss v vs first each)

respond-reply :
    {A W : Type 0} (o : Option (Result A × W)) (a : A) (w : W)
    → respond_when_done o ≡ some (reply a, w)
    → o ≡ some (ok a, w)
unfolding respond_when_done respond
respond-reply none a w h = cc
respond-reply (some (ok b, w')) a w h = cc
respond-reply (some (err e, w')) a w h = cc
respond-reply (some (panic, w')) a w h = cc

result_of :
    {A B W : Type 0} (o : Option (Result A × W)) (f : A → B) (b : B) (w : W)
    → after_result_of o f ≡ some (ok b, w)
    → (a : A) × (o ≡ some (ok a, w)) × (b ≡ f a)
result_of none f b w h = cc
result_of (some (ok a, w')) f b w h = (a, cc, cc)
result_of (some (err e, w')) f b w h = cc
result_of (some (panic, w')) f b w h = cc

module _ (net : Net) (dec : Decoder) (rounds : ℕ) (ssh : Ssh net)
    (order_groups : List (String × List ℕ) → List (String × List ℕ)) (aux : Waiting RespNode)
    (joins : Waiting ℕ) (st : Storage) (dk : Docker) where
  abbrev Chosen :
      (List Group → List Group)
      → Request CreateClusterSetupJson
      → Daemon st dk
      → CreateClusterSetupJson × Cluster
      → Type 0
  Chosen order r s (conf, cluster) =
      (ctx : Context) × (get_http_context r ≡ ok ctx)
      × (r.body ≡ ok conf)
      × (get_cluster st dk order ctx r.cluster_id s ≡ ok cluster)
      × (length cluster.nodes ≡ length conf.services)

  cluster_to_setup-eq-ok :
      (order : List Group → List Group) (r : Request CreateClusterSetupJson) (s : Daemon st dk)
      (conf : CreateClusterSetupJson) (cluster : Cluster)
      → cluster_to_setup net dec rounds ssh order_groups aux joins st dk order r s
        ≡ ok (conf, cluster)
      → (ctx : Context) × (get_http_context r ≡ ok ctx)
        × (r.body ≡ ok conf)
        × (get_cluster st dk order ctx r.cluster_id s ≡ ok cluster)
        × (length cluster.nodes ≡ length conf.services)
  unfolding cluster_to_setup
  cluster_to_setup-eq-ok order r s conf cluster h =
      let (ctx, known, h1) = >>=-eq-ok (get_http_context r) _ h in
      let (req, read, h2) = >>=-eq-ok r.body _ h1 in
      let (found, seen, h3) = >>=-eq-ok (get_cluster st dk order ctx r.cluster_id s) _ h2 in
      let (_, counted, h4) = >>=-eq-ok _ _ h3 in
      subst (Chosen order r s) (ok-injective h4)
        (ctx, known, read, seen, eqb-eq _ _ (guard-eq-ok _ _ counted))

  -- If HttpSetupCluster answers with a cluster, that is the cluster that the requester sees under
  -- this ID, it has as many nodes as the request has services, setting it up has succeeded, and its
  -- entry point in the answer is the URL that this returned.
  pub http_setup_cluster-reply :
      (order : List Group → List Group) (r : Request CreateClusterSetupJson) (s : Daemon st dk)
      (world world' : net.World) (json : ClusterJson)
      → http_setup_cluster net dec rounds ssh order_groups aux joins st dk order r s world
        ≡ some (reply json, world')
      → (ctx : Context) × (conf : CreateClusterSetupJson) × (cluster : Cluster) × (url : String)
        × (get_http_context r ≡ ok ctx)
        × (r.body ≡ ok conf)
        × (get_cluster st dk order ctx r.cluster_id s ≡ ok cluster)
        × (length cluster.nodes ≡ length conf.services)
        × (setup_cluster net dec rounds ssh order_groups aux joins conf cluster.nodes world
            ≡ some (ok url, world'))
        × (json ≡ jsonify_cluster st (record cluster { entry_point = url }))
  unfolding http_setup_cluster cluster_to_setup
  http_setup_cluster-reply order r s world world' json h =
      let ((conf, cluster), found, started) =
        after_result-eq-ok
          (cluster_to_setup net dec rounds ssh order_groups aux joins st dk order r s) _ world
          world' json (respond-reply _ json world' h) in
      let (url, done, answer) = result_of _ _ json world' started in
      let (ctx, known, read, seen, fits) = cluster_to_setup-eq-ok order r s conf cluster found in
      (ctx, conf, cluster, url, known, read, seen, fits, done, answer)
