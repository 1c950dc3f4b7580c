-- ===== src/WireJson/Laws.antt =====
-- What the JSON forms keep.
use cbdynclusterd.Prelude.{List, [], ◌∷◌, map, ◌≡◌, refl}
use cbdynclusterd.Prelude.Result.{ok}
use cbdynclusterd.Time.{truncate_second, IsWritable}
use cbdynclusterd.Meta.{Storage}
use cbdynclusterd.Meta.Laws.{IsStorage}
use cbdynclusterd.Clusters.{Node, Cluster}
use cbdynclusterd.WireJson.{jsonify_node, unjsonify_node, jsonify_cluster, unjsonify_cluster}

unjsonify_nodes : (ns : List Node) → map unjsonify_node (map jsonify_node ns) ≡ ns
unfolding jsonify_node unjsonify_node
unjsonify_nodes [] = refl
unjsonify_nodes (n ∷ ns) = rw (unjsonify_nodes ns)

-- A client that decodes a cluster's JSON form gets the cluster back, its expiry rounded down to
-- the second. Supposes IsStorage, and that this expiry has a year from 1 to 9999.
pub unjsonify-jsonify :
    (st : Storage)
    → IsStorage st
    → (c : Cluster) → IsWritable c.timeout
    → unjsonify_cluster st (jsonify_cluster st c)
      ≡ ok (record c { timeout = truncate_second c.timeout })
unfolding jsonify_cluster unjsonify_cluster
unjsonify-jsonify st laws c w = rw (laws.parse-format c.timeout w, unjsonify_nodes c.nodes)
