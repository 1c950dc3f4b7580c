-- ===== src/Peer/Ready.antt =====
-- When WaitForBucketReady of cluster/node.go returns.
use cbdynclusterd.Prelude.{
  ℕ, Bool-cases, true, false≢true, Option, none, some, List, [], ◌∷◌, All, ◌≡◌, ◌≢◌, ◌↔◌, ◌⊎◌, inl,
  inr, refl, sym, ◌∙◌, ap, subst, eq_iff, ◌==◌,
}
use cbdynclusterd.Prelude.Result.{Result, ok, err, panic, >>=-eq-ok, ok-injective}
use cbdynclusterd.Poll.{settled, Polls, stops, goes_on}
use cbdynclusterd.Poll.Laws.{poll_iff}
use cbdynclusterd.Rest.{Net}
use cbdynclusterd.Server.{RespNode}
use cbdynclusterd.Peer.{Decoder, Place, update_node, resp_nodes}
use cbdynclusterd.Peer.Polling.{bucket_status, ask_bucket, wait_for_bucket_ready}

abbrev pub AllHealthy : List RespNode → Type 0
AllHealthy = All (λ nd. nd.status ≡ "healthy")

bucket_status_cases :
    (nodes : List RespNode)
    → (AllHealthy nodes × (bucket_status nodes ≡ some tt))
      ⊎ ((AllHealthy nodes → ⊥) × (bucket_status nodes ≡ none))
unfolding bucket_status
bucket_status_cases [] = inl (tt, refl)
bucket_status_cases (nd ∷ nds) = elim (Bool-cases (nd.status == "healthy")) [
  | inl healthy ↦ elim (bucket_status_cases nds) [
    | inl (all, is) ↦ inl (((eq_iff nd.status "healthy").0 healthy, all), rw healthy is)
    | inr (some_not, is) ↦ inr (λ all. some_not all.1, rw healthy is)
  ]
  | inr ill ↦ inr (λ all. false≢true (sym ill ∙ (eq_iff nd.status "healthy").1 all.0), rw ill refl)
]

pair_of : {A B : Type 0} {a : A} {b : B} (t : A × B) → t.0 ≡ a → t.1 ≡ b → t ≡ (a, b)
pair_of {a = a} t e f = ap (λ x. (x, t.1)) e ∙ ap (λ y. (a, y)) f

some≢none : {A : Type 0} {a : A} → some a ≢ none
some≢none h = cc

settled_some :
    {A : Type 0} {a : A} (r : Result (Option A)) → settled r ≡ some (ok a) → r ≡ ok (some a)
settled_some (ok none) h = cc
settled_some (ok (some a)) h = cc
settled_some (err e) h = cc
settled_some panic h = cc

settled_none : {A : Type 0} (r : Result (Option A)) → settled r ≡ none → r ≡ ok none
settled_none (ok none) h = refl
settled_none (ok (some a)) h = cc
settled_none (err e) h = cc
settled_none panic h = cc

module _ (net : Net) (dec : Decoder) where
  -- One Update succeeds, with this answer in the place that it leaves.
  abbrev pub Updates : Place net → Place net → List RespNode → Type 0
  Updates p q nodes = (update_node net dec true p ≡ (ok tt, q)) × (resp_nodes q.node ≡ ok nodes)

  -- Updates in a row that all succeed, of which the last is the first to find all nodes healthy.
  pub data ComesReady (last : Place net) : Place net → Type 0 where
    is_ready :
        {p : Place net} {nodes : List RespNode}
        → Updates p last nodes
        → AllHealthy nodes
        → ComesReady last p
    not_yet :
        {p q : Place net} {nodes : List RespNode}
        → Updates p q nodes
        → (AllHealthy nodes → ⊥)
        → ComesReady last q
        → ComesReady last p

  asked :
      (p q : Place net) (nodes : List RespNode) (b : Option (Unit {0}))
      → Updates p q nodes
      → bucket_status nodes ≡ b
      → ask_bucket net dec p ≡ (ok b, q)
  asked p q nodes b (updated, answer) status = rw (updated, answer, status) refl

  Polls-ComesReady :
      (last p : Place net) → ComesReady last p → Polls (ask_bucket net dec) (ok tt, last) p
  Polls-ComesReady last p (is_ready {nodes} update healthy) = elim (bucket_status_cases nodes) [
    | inl (_, is) ↦
        let e = asked p last nodes (some tt) update is in
        stops (ap (λ r. settled r.0) e) (ap (λ r. r.1) e)
    | inr (ill, _) ↦ absurd (ill healthy)
  ]
  Polls-ComesReady last p (not_yet {q} {nodes} update ill later) =
      elim (bucket_status_cases nodes) [
        | inl (healthy, _) ↦ absurd (ill healthy)
        | inr (_, is) ↦
            let e = asked p q nodes none update is in
            goes_on (ap (λ r. settled r.0) e) (
              subst (Polls (ask_bucket net dec) (ok tt, last)) (sym (ap (λ r. r.1) e))
                (Polls-ComesReady last q later))
      ]

  -- What a round that does not fail has seen.
  seen :
      (p : Place net) (b : Option (Unit {0}))
      → (ask_bucket net dec p).0 ≡ ok b
      → (nodes : List RespNode) × Updates p (update_node net dec true p).1 nodes
        × (bucket_status nodes ≡ b)
  seen p b h =
      let t = update_node net dec true p in
      let (_, updated, h1) = >>=-eq-ok t.0 _ h in
      let (nodes, answer, h2) = >>=-eq-ok (resp_nodes t.1.node) _ h1 in
      (nodes, (pair_of t updated refl, answer), ok-injective h2)

  ComesReady-Polls :
      (last : Place net) {p : Place net}
      → Polls (ask_bucket net dec) (ok tt, last) p
      → ComesReady last p
  ComesReady-Polls last (stops {s = p} end same) =
      let (nodes, update, is) = seen p (some tt) (settled_some (ask_bucket net dec p).0 end) in
      elim (bucket_status_cases nodes) [
        | inl (healthy, _) ↦ is_ready (subst (λ q. Updates p q nodes) same update) healthy
        | inr (_, is_none) ↦ absurd (some≢none (sym is ∙ is_none))
      ]
  ComesReady-Polls last (goes_on {s = p} more polls) =
      let (nodes, update, is) = seen p none (settled_none (ask_bucket net dec p).0 more) in
      elim (bucket_status_cases nodes) [
        | inl (_, is_some) ↦ absurd (some≢none (sym is_some ∙ is))
        | inr (ill, _) ↦ not_yet update ill (ComesReady-Polls last polls)
      ]

  -- WaitForBucketReady succeeds within some number of rounds exactly if Updates in a row succeed up
  -- to the first that finds all nodes of the cluster healthy.
  pub wait_for_bucket_ready_iff :
      (p last : Place net)
      → ((rounds : ℕ) × (wait_for_bucket_ready net dec rounds p ≡ some (ok tt, last)))
        ↔ ComesReady last p
  unfolding wait_for_bucket_ready
  wait_for_bucket_ready_iff p last =
      let (there, back) = poll_iff (ask_bucket net dec) p (ok tt, last) in
      (λ h. ComesReady-Polls last (there h), λ r. back (Polls-ComesReady last p r))
