-- ===== src/Manager/Joining.antt =====
-- What the steps of setupNewCluster of cluster/manager.go do to the nodes but the first.
use cbdynclusterd.Prelude.{
  some-injective, All, ℕ, String, Option, none, some, List, [], ◌∷◌, get_elem?, eqb, ◌≡◌, ◌≢◌, true,
  ◌⊎◌, inl, inr, refl, sym, ◌∙◌, ap, Bool-cases, arith,
}
use cbdynclusterd.Prelude.Text.{contains}
use cbdynclusterd.Prelude.Result.{Error, Result, message, ok, err, panic}
use cbdynclusterd.Prelude.Exec.{Gives, for_each, exec-eq-ok}
use cbdynclusterd.Prelude.Await.{Waiting, IsWaiting, await_all, await_all-eq-ok}
use cbdynclusterd.Prelude.Join.{run_all, IsOk}
use cbdynclusterd.Rest.{Net}
use cbdynclusterd.Server.{Server, add_node}
use cbdynclusterd.Peer.{Decoder}
use cbdynclusterd.Peer.Polling.{poll_join_ready}
use cbdynclusterd.Manager.{Site, ask}
use cbdynclusterd.Manager.Setup.{
  at_run, add_retry, add_found, join_end, join_job, all_joined, other_nodes, add_other,
  poll_join_ready_all,
}

-- The second list has the numbers of the first but the first node's, which is 0, in their order.
pub data NotFirst : List ℕ → List ℕ → Type 0 where
  no_more : NotFirst [] []
  itself : {i : ℕ} {is others : List ℕ} → i ≡ 0 → NotFirst is others → NotFirst (i ∷ is) others
  another :
      {i : ℕ} {is others : List ℕ} → i ≢ 0 → NotFirst is others → NotFirst (i ∷ is) (i ∷ others)

pub other_nodes-NotFirst : (all : List ℕ) → NotFirst all (other_nodes all)
other_nodes-NotFirst [] = NotFirst.no_more
other_nodes-NotFirst (i ∷ is) = elim (Bool-cases (eqb i 0)) [
  | inl first ↦ rw first (NotFirst.itself (ground arith) (other_nodes-NotFirst is))
  | inr other ↦ rw other (NotFirst.another (ground arith) (other_nodes-NotFirst is))
]

module _ (net : Net) where
  -- Between the two states the first node was asked to add this node, and did so: at the first try, or
  -- at the second, where the error of the first named a failed preparation of the join.
  abbrev pub IsAdded : ℕ → Site net → Site net → Type 0
  IsAdded i s s' =
      (new : Server) × (before : Site net) × (get_elem? s.nodes i ≡ some new)
      × ((before ≡ s)
          ⊎ ((e : Error) × (ask net 0 (λ epnode. add_node net epnode new) s ≡ (err e, before))
              × (contains (message e) "Prepare join failed. Got HTTP status 500 from REST call"
                  ≡ true)))
      × Gives (ask net 0 (λ epnode. add_node net epnode new)) tt before s'

  -- One node after the other.
  abbrev pub AllAdded : List ℕ → Site net → Site net → Type 0
  AllAdded [] s last = s ≡ last
  AllAdded (i ∷ is) s last = (mid : Site net) × IsAdded i s mid × AllAdded is mid last

  add_other-IsAdded : (i : ℕ) (s s' : Site net) → Gives (add_other net i) tt s s' → IsAdded i s s'
  unfolding add_other
  add_other-IsAdded i s s' h = by_node (get_elem? s.nodes i) refl h
    where
      late : String
      late = "Prepare join failed. Got HTTP status 500 from REST call"

      by_try :
          (new : Server) (r : Result (Unit {0})) (s1 : Site net)
          → get_elem? s.nodes i ≡ some new
          → ask net 0 (λ epnode. add_node net epnode new) s ≡ (r, s1)
          → add_retry net new r s1 ≡ (ok tt, s')
          → IsAdded i s s'
      by_try new (ok u) s1 is tried h = (new, s, is, inl refl, tried ∙ h)
      by_try new (err e) s1 is tried h = elim (Bool-cases (contains (message e) late)) [
        | inl again ↦ (new, s1, is, inr (e, tried, again), rw again at h)
        | inr other ↦ cc (rw other at h)
      ]
      by_try new panic s1 is tried h = cc

      by_node :
          (o : Option Server)
          → get_elem? s.nodes i ≡ o
          → add_found net o s ≡ (ok tt, s')
          → IsAdded i s s'
      by_node none is h = cc
      by_node (some new) is h =
          let tried = ask net 0 (λ epnode. add_node net epnode new) s in
          by_try new tried.0 tried.1 is refl h

  pub for_each-AllAdded :
      (is : List ℕ) (s last : Site net)
      → Gives (for_each tt (add_other net) is) tt s last
      → AllAdded is s last
  unfolding for_each
  for_each-AllAdded [] s last h = ap (λ r. r.1) h
  for_each-AllAdded (i ∷ is) s last h =
      let (_, done, rest) = exec-eq-ok (add_other net i s).0 _ (add_other net i s).1 last tt h in
      (
        (add_other net i s).1,
        add_other-IsAdded i s (add_other net i s).1 (λ k. (done k, (add_other net i s).1)),
        for_each-AllAdded is (add_other net i s).1 last rest,
      )

  module _ (dec : Decoder) (rounds : ℕ) where
    -- PollJoinReady ended without an error on each, one after the other.
    abbrev pub AllReady : List ℕ → Site net → Site net → Type 0
    AllReady [] s last = s ≡ last
    AllReady (i ∷ is) s last =
        (mid : Site net) × (at_run net i (poll_join_ready net dec rounds) s ≡ some (ok tt, mid))
        × AllReady is mid last

    run_all-AllReady :
        (is : List ℕ) (s last : Site net)
        → All IsOk (run_all (join_job net dec rounds) is (some s)).0
        → (run_all (join_job net dec rounds) is (some s)).1 ≡ some last
        → AllReady is s last
    unfolding run_all
    run_all-AllReady [] s last h e = some-injective e
    run_all-AllReady (i ∷ is) s last h e =
        polled (λ mid. run_all-AllReady is mid last)
          (at_run net i (poll_join_ready net dec rounds) s) refl h e
      where
        polled :
            ((mid : Site net)
              → All IsOk (run_all (join_job net dec rounds) is (some mid)).0
              → (run_all (join_job net dec rounds) is (some mid)).1 ≡ some last
              → AllReady is mid last)
            → (o : Option (Result (Unit {0}) × Site net))
            → at_run net i (poll_join_ready net dec rounds) s ≡ o
            → All IsOk (
                (join_end net dec rounds o).0
                ∷ (run_all (join_job net dec rounds) is (join_end net dec rounds o).1).0)
            → (run_all (join_job net dec rounds) is (join_end net dec rounds o).1).1 ≡ some last
            → AllReady (i ∷ is) s last
        polled rest none p h e = cc
        polled rest (some (r, mid)) p h e = (mid, p ∙ (λ k. some (h.0 k, mid)), rest mid h.1 e)

    all_joined-eq-ok :
        (r : Result (Unit {0})) (o : Option (Site net)) (last : Site net)
        → all_joined net dec rounds (r, o) ≡ some (ok tt, last)
        → (r ≡ ok tt) × (o ≡ some last)
    all_joined-eq-ok r none last h = cc
    all_joined-eq-ok r (some s) last h =
        (ap (λ p. p.0) (some-injective h), ap (λ p. some p.1) (some-injective h))

    pub poll_join_ready_all-AllReady :
        (w : Waiting ℕ) (all : List ℕ) (s last : Site net)
        → IsWaiting w
        → poll_join_ready_all net dec rounds w all s ≡ some (ok tt, last)
        → AllReady (w.run (other_nodes all)) s last
    unfolding poll_join_ready_all
    poll_join_ready_all-AllReady w all s last fair h =
        let late : String = "Timeout while polling rest of nodes" in
        let job = join_job net dec rounds in
        let left = await_all late w job (other_nodes all) (some s) in
        let (good, reached) = all_joined-eq-ok left.0 left.1 last h in
        let (each, same) = await_all-eq-ok late w job (other_nodes all) (some s) fair good in
        run_all-AllReady (w.run (other_nodes all)) s last each (sym same ∙ reached)
