-- ===== src/Peer.antt =====
-- What cluster/node.go does with the answer of /pools/nodes: Update, Membership, Rebalance,
-- GetBuckets, and failing over and ejecting the other nodes. encoding/json is a parameter,
-- `Decoder`. Waits and log lines are left out.
pub mod Polling
pub mod Laws
pub mod Ready
use Prim.Native.String.{◌++◌}
use cbdynclusterd.Prelude.{
  String, Bool, true, false, not, ◌&&◌, Option, none, some, List, [], ◌∷◌, map, keep, if◌then◌else◌,
  ◌==◌,
}
use cbdynclusterd.Prelude.Text.{join}
use cbdynclusterd.Prelude.Result.{Error, failure, Result, ok, err, panic}
use cbdynclusterd.Prelude.Exec.{Exec, pure, lift, reads, raise, ◌>>=◌, ◌>>◌}
use cbdynclusterd.Prelude.Await.{Waiting, await_all}
use cbdynclusterd.Escape.{query_escape}
use cbdynclusterd.Json.{Members}
use cbdynclusterd.Rest.{Cred, RestCall, Net, get_response, rest_retryer, rest_retry}
use cbdynclusterd.Server.{Server, RespNode, form_call, bare_call, rest_unit}

-- RefInfo of cluster/manager.go: `pools` is the URIs of the pools. The other fields are not read.
pub record RefInfo : Type 0 where
  pub cluster_version : String
  pub pools : List String

-- json.Unmarshal at the types that the code decodes. It gives what the target holds afterwards,
-- from what it held before, and the error if there is one; of a list of buckets, the names.
pub record Decoder : Type 0 where
  pub pools_nodes : List RespNode → String → List RespNode × Option Error
  pub ref_info : RefInfo → String → RefInfo × Option Error
  pub buckets : String → List String × Option Error
  pub values : Members → String → Members × Option Error

-- A node as a method sees it: the object that it may change, and the world.
pub record Place (net : Net) : Type 0 where
  pub world : net.World
  pub node : Server

-- fmt.Sprintf("%s:%s", n.HostName, n.Port)
unfoldable pub get_id : Server → String
get_id n = n.host_name ++ (":" ++ n.port)

-- n.poolsNodes.RespNodes, which panics if poolsNodes is nil
unfoldable pub resp_nodes : Server → Result (List RespNode)
resp_nodes n = elim n.pools_nodes [ none ↦ panic | some nodes ↦ ok nodes ]

-- What Update starts from: the old answer, or an empty one.
abbrev pub known_nodes : Server → List RespNode
known_nodes n = elim n.pools_nodes [ none ↦ [] | some nodes ↦ nodes ]

-- for _, nd := range RespNodes { if nd.HostName == nodeId { n.OtpNode = nd.NSOtpNode } }
unfoldable pub find_otp : String → String → List RespNode → String
find_otp node_id otp [] = otp
find_otp node_id otp (nd ∷ nds) =
    find_otp node_id (if nd.host_name == node_id then nd.ns_otp_node else otp) nds

abbrev error_of : Option Error → Result (Unit {0})
error_of none = ok tt
error_of (some e) = err e

-- The node after a decoded answer, and Update's result. The new identity is only looked for if the
-- answer could be decoded.
unfoldable pub take_nodes : Server → List RespNode × Option Error → Result (Unit {0}) × Server
take_nodes n (nodes, some e) = (err e, record n { pools_nodes = some nodes })
take_nodes n (nodes, none) =
    (ok tt, record n { pools_nodes = some nodes; otp_node = find_otp (get_id n) n.otp_node nodes })

-- for _, n := range RespNodes { if n.HostName == thisHost { return n.ClusterMembership, nil } }
unfoldable pub find_membership : String → List RespNode → Result String
find_membership this_host [] = err (failure ("Could not find node info of " ++ this_host))
find_membership this_host (nd ∷ nds) =
    if nd.host_name == this_host then ok nd.cluster_membership else find_membership this_host nds

unfoldable pub membership : Server → Result String
membership n = elim n.pools_nodes [ none ↦ panic | some nodes ↦ find_membership (get_id n) nodes ]

-- The nodes that restCallToAux keeps.
unfoldable pub aux_nodes : String → List RespNode → List RespNode
aux_nodes node_id nodes = keep (λ nd. not (node_id == nd.host_name)) nodes

module _ (net : Net) where
  -- An action on the world that reads the node.
  abbrev pub asking : {A : Type 0} → (Server → Exec net.World A) → Exec (Place net) A
  asking f p = let (r, world') = f p.node p.world in (r, record p { world = world' })

  abbrev pub changing : (Server → Result (Unit {0}) × Server) → Exec (Place net) (Unit {0})
  changing f p = let (r, node') = f p.node in (r, record p { node = node' })

  unfoldable pub get_text : String → Server → Exec net.World String
  get_text path n = rest_retryer rest_retry (get_response net) (bare_call "GET" path n.rest_login)

  unfoldable pub otp_post : Cred → String → String → Exec net.World (Unit {0})
  otp_post login otp_node path =
      rest_unit net rest_retry
        (record (bare_call "POST" path login) { body = "otpNode=" ++ otp_node })

  unfoldable pub fail_over_and_eject : Cred → RespNode → Exec net.World (Unit {0})
  fail_over_and_eject login node = do
    if node.cluster_membership == "inactive_added"
        then pure tt
        else otp_post login node.ns_otp_node "/controller/failOver"
    otp_post login node.ns_otp_node "/controller/ejectNode"

  module _ (dec : Decoder) where
    -- What Update does when it asks the server.
    unfoldable pub fetch_nodes : Exec (Place net) (Unit {0})
    fetch_nodes = do
      changing (λ n. (ok tt, record n { pools_nodes = some (known_nodes n) }))
      resp ← asking (get_text "/pools/nodes")
      changing (λ n. take_nodes n (dec.pools_nodes (known_nodes n) resp))

    -- A node that has an answer is not asked again, unless `force` is set.
    unfoldable pub update_node : Bool → Exec (Place net) (Unit {0})
    update_node force p = elim p.node.pools_nodes [
      | none ↦ fetch_nodes p
      | some nodes ↦ if force then fetch_nodes p else pure tt p
    ]

    -- `if len(remaining) == 0 { ... }`: no node is in ejectedIds where this is reached.
    unfoldable pub remaining_ids : List Server → Exec (Place net) (List String)
    remaining_ids (n ∷ ns) = pure []
    remaining_ids [] = do
      update_node true
      nodes ← reads (λ p. resp_nodes p.node)
      pure (map (λ nd. nd.ns_otp_node) nodes)

    -- A write to the nil map ejectedIds panics, so a node that has failed over is a panic.
    unfoldable pub rebalance_node :
        List Server → List Server → List Server → Exec (Place net) (Unit {0})
    rebalance_node remaining (n ∷ ns) to_remove = lift panic
    rebalance_node remaining [] to_remove = do
      remaining_id ← remaining_ids remaining
      let ejected_id = map (λ n. n.otp_node) to_remove
      asking (λ n. rest_unit net rest_retry (
          form_call 200 0 "POST" "/controller/rebalance" n.rest_login (
            "knownNodes="
            ++ (query_escape (join "," remaining_id)
                ++ ("&ejectedNodes=" ++ query_escape (join "," ejected_id))))))

    -- The names of the buckets.
    unfoldable pub get_buckets : Exec (Place net) (List String)
    get_buckets = do
      resp ← asking (get_text "/pools/default/buckets")
      let (names, error) = dec.buckets resp
      lift (error_of error)
      pure names

    -- `w` is how the goroutines act and answer.
    unfoldable pub rest_call_to_aux :
        Waiting RespNode → (RespNode → Exec net.World (Unit {0})) → Exec (Place net) (Unit {0})
    rest_call_to_aux w fn = do
      update_node false
      nodes ← reads (λ p. resp_nodes p.node)
      asking (λ n. await_all "Timeout while restCallToAux" w fn (aux_nodes (get_id n) nodes))

    unfoldable pub fail_over_and_eject_all : Waiting RespNode → Cred → Exec (Place net) (Unit {0})
    fail_over_and_eject_all w login = rest_call_to_aux w (fail_over_and_eject login)
