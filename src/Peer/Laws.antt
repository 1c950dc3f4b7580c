-- ===== src/Peer/Laws.antt =====
-- What restCallToAux of cluster/node.go promises, and with it failing over and ejecting the nodes.
use Prim.Native.String.{◌++◌}
use cbdynclusterd.Prelude.{
  String, false, some, List, [], ◌∷◌, All, Permᴰ, ◌≡◌, ◌≢◌, sym, ◌∙◌, ap, subst, arith, ◌==◌,
  eq_iff, Bool-cases, inl, inr, false≢true,
}
use cbdynclusterd.Prelude.Result.{ok}
use cbdynclusterd.Prelude.Exec.{Exec, exec-eq-ok}
use cbdynclusterd.Prelude.Join.{run_all, IsOk}
use cbdynclusterd.Prelude.Await.{Waiting, IsWaiting, await_all-eq-ok}
use cbdynclusterd.Rest.{Net}
use cbdynclusterd.Server.{Server, RespNode}
use cbdynclusterd.Peer.{
  Decoder, Place, update_node, resp_nodes, get_id, aux_nodes, rest_call_to_aux,
}

-- The second list has the members of the first that have another host name, in their order.
pub data Others (host_name : String) : List RespNode → List RespNode → Type 0 where
  no_more : Others host_name [] []
  itself :
      {nd : RespNode} {nds os : List RespNode}
      → nd.host_name ≡ host_name
      → Others host_name nds os
      → Others host_name (nd ∷ nds) os
  another :
      {nd : RespNode} {nds os : List RespNode}
      → nd.host_name ≢ host_name
      → Others host_name nds os
      → Others host_name (nd ∷ nds) (nd ∷ os)

aux_nodes-Others :
    (node_id : String) (nodes : List RespNode) → Others node_id nodes (aux_nodes node_id nodes)
unfolding aux_nodes
aux_nodes-Others node_id [] = Others.no_more
aux_nodes-Others node_id (nd ∷ nds) = elim (Bool-cases (node_id == nd.host_name)) [
  | inl same ↦
      rw same
        (Others.itself (sym ((eq_iff node_id nd.host_name).0 same)) (aux_nodes-Others node_id nds))
  | inr other ↦ rw other (
      Others.another (λ e. false≢true (sym other ∙ (eq_iff node_id nd.host_name).1 (sym e)))
        (aux_nodes-Others node_id nds))
]

module _ (net : Net) (dec : Decoder) (w : Waiting RespNode) (fair : IsWaiting w) where
  resp_nodes-eq-ok :
      (n : Server) (nodes : List RespNode) → resp_nodes n ≡ ok nodes → n.pools_nodes ≡ some nodes
  unfolding resp_nodes
  resp_nodes-eq-ok n nodes h = ground arith

  -- What has been called when `p` is left.
  abbrev pub CalledOthers : (RespNode → Exec net.World (Unit {0})) → Place net → Type 0
  CalledOthers fn p =
      (nodes : List RespNode) × (others : List RespNode) × (called : List RespNode)
      × (world : net.World) × (p.node.pools_nodes ≡ some nodes)
      × Others (p.node.host_name ++ (":" ++ p.node.port)) nodes others
      × Permᴰ others called
      × All IsOk (run_all fn called world).0
      × (p.world ≡ (run_all fn called world).1)

  -- If restCallToAux succeeds, the node has an answer of /pools/nodes; the call was made once for each
  -- member in it whose host name is not the node's own with its port, and for no other, in some
  -- order, and each of these calls succeeded; the network is as they left it. Supposes IsWaiting.
  pub rest_call_to_aux-eq-ok :
      (fn : RespNode → Exec net.World (Unit {0})) (p p' : Place net)
      → rest_call_to_aux net dec w fn p ≡ (ok tt, p')
      → CalledOthers fn p'
  unfolding rest_call_to_aux get_id
  rest_call_to_aux-eq-ok fn p p' h =
      let t = update_node net dec false p in
      let (_, _, h1) = exec-eq-ok t.0 _ t.1 p' tt h in
      let (nodes, cached, h2) = exec-eq-ok (resp_nodes t.1.node) _ t.1 p' tt h1 in
      let members = aux_nodes (get_id t.1.node) nodes in
      let (all, left) =
        await_all-eq-ok "Timeout while restCallToAux" w fn members t.1.world fair
          (ap (λ q. q.0) h2) in
      subst (CalledOthers fn) (ap (λ q. q.1) h2) (
        nodes,
        members,
        w.run members,
        t.1.world,
        resp_nodes-eq-ok t.1.node nodes cached,
        aux_nodes-Others (get_id t.1.node) nodes,
        fair.run members,
        all,
        left,
      )
