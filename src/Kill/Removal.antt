-- ===== src/Kill/Removal.antt =====
-- A kill that succeeds removes exactly the containers of its cluster.
use mathlib.Core.Path.{fun_ext}
use cbdynclusterd.Prelude.{
  Permᴰ, String, Bool, true, false, not, ◌||◌, List, [], ◌∷◌, map, keep, keep-congr, keep-keep,
  keep_all, All-keep, ◌&&◌, All, Reorders, ◌==◌, eq_iff, ◌≡◌, refl, sym, ◌∙◌, subst, ap, arith,
  Bool-cases, inl, inr, All-map, false≢true,
}
use cbdynclusterd.Prelude.Result.{ok, >>=-eq-ok, ◌>>=◌, traverse, ok-injective}
use cbdynclusterd.Prelude.Join.{IsSchedule, run_all, join, join_iff, IsOk}
use cbdynclusterd.Meta.{Storage}
use cbdynclusterd.Context.{Context}
use cbdynclusterd.Docker.{Docker, Container}
use cbdynclusterd.Clusters.{
  Cluster, Node, Daemon, label, cluster_id_label, short_id, node_of, cluster_of,
}
use cbdynclusterd.Clusters.Grouping.{containers_of}
use cbdynclusterd.Clusters.Lookup.{get_cluster_sound}
use cbdynclusterd.Kill.{Choices, kill_node, nodes_to_kill, kill_cluster}
use cbdynclusterd.Kill.Effect.{
  has_short, has_short-eq, any_short, IsDocker, any_short-perm, run_all-kill_node,
  kill_cluster-eq-ok,
}

abbrev pub node_ids : List Node → List String
node_ids = map (λ n. n.container_id)

short_id-node_of : (c : Container) (n : Node) → node_of c ≡ ok n → short_id c.id ≡ ok n.container_id
unfolding node_of
short_id-node_of c n h = ground arith

has_short-node_of :
    (c : Container) (n : Node) → node_of c ≡ ok n → has_short n.container_id c ≡ true
has_short-node_of c n h = rw (short_id-node_of c n h, (eq_iff n.container_id n.container_id).1 refl)

-- The first 12 characters of a container's ID tell its cluster's label: containers of different
-- clusters do not share them.
abbrev pub TellsLabel : (String → String) → Container → Type 0
TellsLabel label_of c = (x : String) → short_id c.id ≡ ok x → label_of x ≡ label cluster_id_label c

traverse-cons :
    (c : Container) (cs : List Container) (ns : List Node)
    → traverse node_of (c ∷ cs) ≡ ok ns
    → (n : Node) × (rest : List Node) × (node_of c ≡ ok n)
      × (traverse node_of cs ≡ ok rest)
      × (n ∷ rest ≡ ns)
unfolding traverse
traverse-cons c cs ns h =
    let (n, node, later) =
      >>=-eq-ok (node_of c) (λ (n : Node). traverse node_of cs >>= λ rest. ok (n ∷ rest)) h in
    let (rest, nodes, whole) =
      >>=-eq-ok (traverse node_of cs) (λ (rest : List Node). ok (n ∷ rest)) later in
    (n, rest, node, nodes, ok-injective whole)

traverse-nil : (ns : List Node) → traverse node_of [] ≡ ok ns → [] ≡ ns
unfolding traverse
traverse-nil ns h = ok-injective h

or_true : (a : Bool) {b : Bool} → b ≡ true → a || b ≡ true
or_true true h = refl
or_true false h = h

module _ (label_of : String → String) (id : String) where
  -- All of them are named.
  pub members_named :
      (cs : List Container) (ns : List Node)
      → traverse node_of (containers_of id cs) ≡ ok ns
      → All (λ c. label cluster_id_label c == id ≡ true → any_short (node_ids ns) c ≡ true) cs
  members_named [] ns h = tt
  members_named (c ∷ cs) ns h = elim (Bool-cases (label cluster_id_label c == id)) [
    | inl own ↦
        let (n, rest, node, nodes, whole) =
          traverse-cons c (containers_of id cs) ns (rw own at h) in
        subst
          (λ l.
            All (λ d. label cluster_id_label d == id ≡ true → any_short (node_ids l) d ≡ true)
              (c ∷ cs))
          whole
          (
            λ _. rw (has_short-node_of c n node),
            All-map _ _ cs (λ d named e. or_true (has_short n.container_id d) (named e))
                (members_named cs rest nodes),
          )
    | inr other ↦ (λ e. cc, members_named cs ns (rw other at h))
  ]

  -- What is named belongs to the cluster.
  pub named_members :
      (cs : List Container) (ns : List Node)
      → All (TellsLabel label_of) cs
      → traverse node_of (containers_of id cs) ≡ ok ns
      → All (λ x. label_of x ≡ id) (node_ids ns)
  named_members [] ns t h =
      subst (λ l. All (λ x. label_of x ≡ id) (node_ids l)) (traverse-nil ns h) tt
  named_members (c ∷ cs) ns t h = elim (Bool-cases (label cluster_id_label c == id)) [
    | inl own ↦
        let (n, rest, node, nodes, whole) =
          traverse-cons c (containers_of id cs) ns (rw own at h) in
        subst (λ l. All (λ x. label_of x ≡ id) (node_ids l)) whole
          (
            t.0 n.container_id (short_id-node_of c n node) ∙ (eq_iff _ id).0 own,
            named_members cs rest t.1 nodes,
          )
    | inr other ↦ named_members cs ns t.1 (rw other at h)
  ]

  not_named :
      (c : Container) (xs : List String)
      → TellsLabel label_of c
      → All (λ x. label_of x ≡ id) xs
      → label cluster_id_label c == id ≡ false
      → any_short xs c ≡ false
  not_named c [] t a other = refl
  not_named c (x ∷ xs) t a other = elim (Bool-cases (has_short x c)) [
    | inl hit ↦
        let p : label cluster_id_label c ≡ id = sym (t x (has_short-eq x c hit)) ∙ a.0 in
        absurd (false≢true (sym other ∙ (eq_iff _ id).1 p))
    | inr miss ↦ rw miss (not_named c xs t a.1 other)
  ]

  -- What is named is what carries the label.
  named_iff_label :
      (cs : List Container) (xs : List String)
      → All (TellsLabel label_of) cs
      → All (λ c. label cluster_id_label c == id ≡ true → any_short xs c ≡ true) cs
      → All (λ x. label_of x ≡ id) xs
      → All (λ c. not (any_short xs c) ≡ not (label cluster_id_label c == id)) cs
  named_iff_label [] xs t named a = tt
  named_iff_label (c ∷ cs) xs t named a = (
    elim (Bool-cases (label cluster_id_label c == id)) [
      | inl own ↦ rw (own, named.0 own)
      | inr other ↦ rw (other, not_named c xs t.0 a other)
    ],
    named_iff_label cs xs t.1 named.1 a,
  )

pub nodes-cluster_of :
    (st : Storage) (db : st.Db) (id : String) (cs : List Container) (c : Cluster)
    → cluster_of st db (id, cs) ≡ ok c
    → traverse node_of cs ≡ ok c.nodes
unfolding cluster_of
nodes-cluster_of st db id cs c h = ground arith

in_any_order :
    {xs ys : List String}
    → Permᴰ xs ys
    → ◌≡◌ {A = Container → Bool} (λ c. not (any_short ys c)) (λ c. not (any_short xs c))
in_any_order p = fun_ext λ c. ap not (sym (any_short-perm c p))

module _ (st : Storage) (dk : Docker) where
  -- Docker's list has lost exactly the containers that pass the test, and the data base is as given.
  abbrev pub Removed : List Container → (Container → Bool) → st.Db → Daemon st dk → Type 0
  Removed containers p db s =
      (dk.container_list s.engine ≡ ok (keep (λ c. not (p c)) containers)) × (s.db ≡ db)

-- The containers of a list of clusters.
abbrev pub in_clusters : List String → Container → Bool
in_clusters [] c = false
in_clusters (id ∷ ids) c = (label cluster_id_label c == id) || in_clusters ids c

in_neither :
    (id : String) (ids : List String)
    → ◌≡◌ {A = Container → Bool}
        (λ c. not (label cluster_id_label c == id) && not (in_clusters ids c))
        (λ c. not (in_clusters (id ∷ ids) c))
in_neither id ids = fun_ext λ c. ground arith

module _ (st : Storage) (dk : Docker) (laws : IsDocker dk) (ch : Choices) (ctx : Context) where
  -- A kill that succeeds leaves in Docker's list exactly the containers that do not carry the
  -- cluster's label, in their order, and does not touch the data base: the entry of the cluster
  -- stays. It does not depend on the order of the goroutines. Supposes IsDocker, that the orders
  -- are permutations, that Docker's list can be read, and that no two containers of different
  -- clusters share the first 12 characters of their IDs.
  pub kill_cluster_removes :
      (id : String) (s : Daemon st dk) (containers : List Container) (label_of : String → String)
      → Reorders ch.order
      → IsSchedule (ch.nodes id)
      → All (TellsLabel label_of) containers
      → dk.container_list s.engine ≡ ok containers
      → (kill_cluster st dk ch ctx id s).0 ≡ ok tt
      → Removed st dk containers
          (λ c. label cluster_id_label c == id)
          s.db
          (kill_cluster st dk ch ctx id s).1
  unfolding nodes_to_kill join
  kill_cluster_removes id s containers label_of reorders fair tells listed h =
      let (c, got, allowed, done, same) = kill_cluster-eq-ok st dk ch ctx id s h in
      let (built, seen) =
        get_cluster_sound st dk ch.order ctx id s containers c reorders listed got in
      let nodes = nodes-cluster_of st s.db id (containers_of id containers) c built in
      let ids = node_ids c.nodes in
      let order = (ch.nodes id).run ids in
      let stopped =
        run_all-kill_node st dk laws order s containers listed
          ((join_iff (ch.nodes id) fair (kill_node st dk) ids s).0 done) in
      let exact =
        named_iff_label label_of id containers ids tells
          (members_named label_of id containers c.nodes nodes)
          (named_members label_of id containers c.nodes tells nodes) in
      subst (λ r. Removed st dk containers (λ c. label cluster_id_label c == id) s.db r.1)
        (sym same)
        (
          stopped.0
              ∙ ap ok (
                  ap (λ p. keep p containers) (in_any_order (fair.run ids))
                  ∙ keep-congr _ _ containers exact),
          stopped.1,
        )

  pub run_all-kill_cluster :
      (ids : List String) (s : Daemon st dk) (containers : List Container)
      (label_of : String → String)
      → Reorders ch.order
      → ((id : String) → IsSchedule (ch.nodes id))
      → All (TellsLabel label_of) containers
      → dk.container_list s.engine ≡ ok containers
      → All IsOk (run_all (kill_cluster st dk ch ctx) ids s).0
      → Removed st dk containers
          (in_clusters ids)
          s.db
          (run_all (kill_cluster st dk ch ctx) ids s).1
  unfolding run_all
  run_all-kill_cluster [] s containers label_of reorders fair tells listed h =
      (rw keep_all listed, refl)
  run_all-kill_cluster (id ∷ ids) s containers label_of reorders fair tells listed h =
      let first =
        kill_cluster_removes id s containers label_of reorders (fair id) tells listed h.0 in
      let later =
        run_all-kill_cluster ids (kill_cluster st dk ch ctx id s).1 _ label_of reorders fair
          (All-keep _ _ containers tells) first.0 h.1 in
      (
        later.0
            ∙ ap ok (keep-keep _ _ containers ∙ ap (λ p. keep p containers) (in_neither id ids)),
        later.1 ∙ first.1,
      )
