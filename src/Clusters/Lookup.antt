-- ===== src/Clusters/Lookup.antt =====
-- getCluster finds a cluster by its ID exactly if containers carry the ID and the caller may see
-- it, whatever the order in which Go ranges over the map.
use cbdynclusterd.Prelude.{
  String, Bool, true, false, List, [], ◌∷◌, ◌==◌, eq_iff, All-perm, Permᴰ, Reorders, ◌≡◌, ◌≢◌, refl,
  arith, Bool-cases, inl, inr, sym, ◌∙◌, subst, ◌↔◌,
}
use cbdynclusterd.Prelude.Result.{Result, ok, >>=-eq-ok, ok-injective, ◌>>=◌}
use cbdynclusterd.Meta.{Storage}
use cbdynclusterd.Context.{Context}
use cbdynclusterd.Docker.{Docker, Container}
use cbdynclusterd.Clusters.{
  Cluster, Group, Daemon, visible, add_if, cluster_of, collect, find_cluster, get_all_clusters,
  get_cluster, group_containers,
}
use cbdynclusterd.Clusters.Grouping.{containers_of, has_key, Entries, group_containers-Grouped}

pub has_key-perm : (id : String) {xs ys : List Group} → Permᴰ xs ys → has_key id xs ≡ has_key id ys
has_key-perm id Permᴰ.nil = refl
has_key-perm id (Permᴰ.cons {a} {b} e p) = rw (e, has_key-perm id p)
has_key-perm id (Permᴰ.swap {a = a} {b = b} {l = l} e f) = rw (sym e, sym f) (ground arith)
has_key-perm id (Permᴰ.trans p q) = has_key-perm id p ∙ has_key-perm id q

module _ (st : Storage) (ctx : Context) (db : st.Db) where
  pub id-cluster_of : (g : Group) (c : Cluster) → cluster_of st db g ≡ ok c → c.id ≡ g.0
  unfolding cluster_of
  id-cluster_of (i, xs) c h = ground arith

  abbrev add_found : Cluster → List Cluster → Result (List Cluster)
  add_found c cs = ok (add_if (visible ctx c.creator) c cs)

  abbrev add_cluster : List Group → Cluster → Result (List Cluster)
  add_cluster gs c = collect st ctx db gs >>= add_found c

  -- One round of the loop, taken apart.
  pub collect-eq-ok :
      (g : Group) (gs : List Group) (cs : List Cluster)
      → collect st ctx db (g ∷ gs) ≡ ok cs
      → (c : Cluster) × (rest : List Cluster) × (cluster_of st db g ≡ ok c)
        × (collect st ctx db gs ≡ ok rest)
        × (cs ≡ add_if (visible ctx c.creator) c rest)
  unfolding collect
  collect-eq-ok g gs cs h =
      let (c, built, later) = >>=-eq-ok (cluster_of st db g) (add_cluster gs) h in
      let (rest, collected, added) = >>=-eq-ok (collect st ctx db gs) (add_found c) later in
      (c, rest, built, collected, cc)

  module _ (seen : List Container) (id : String) where
    abbrev Found : Cluster → Type 0
    Found c = (cluster_of st db (id, containers_of id seen) ≡ ok c) × (visible ctx c.creator ≡ true)

    find_head :
        (g : Group) (c d : Cluster) (rest : List Cluster) (shown : Bool)
        → (g.1 ≡ containers_of g.0 seen)
        → cluster_of st db g ≡ ok c
        → visible ctx c.creator ≡ shown
        → (find_cluster id rest ≡ ok d → Found d)
        → find_cluster id (add_if shown c rest) ≡ ok d
        → Found d
    unfolding find_cluster
    find_head g c d rest false e built v later f = later f
    find_head g c d rest true e built v later f = elim (Bool-cases (c.id == id)) [
      | inl hit ↦
          let p : g.0 ≡ id = sym (id-cluster_of g c built) ∙ (eq_iff c.id id).0 hit in
          let whole = subst (λ xs. cluster_of st db (g.0, xs) ≡ ok c) e built in
          let same : c ≡ d = ok-injective (rw hit at f) in
          subst (λ x. Found x) same
            (subst (λ i. cluster_of st db (i, containers_of i seen) ≡ ok c) p whole, v)
      | inr miss ↦ later (rw miss at f)
    ]

    find_sound :
        (gs : List Group) (cs : List Cluster) (c : Cluster)
        → Entries seen gs
        → collect st ctx db gs ≡ ok cs
        → find_cluster id cs ≡ ok c
        → Found c
    unfolding find_cluster collect
    find_sound [] cs c e h f =
        let none_left = subst (λ l. find_cluster id l ≡ ok c) (sym (ok-injective h)) f in cc
    find_sound (g ∷ gs) cs c e h f =
        let (b, rest, built, collected, shape) = collect-eq-ok g gs cs h in
        find_head g b c rest (visible ctx b.creator) e.0.0 built refl
          (find_sound gs rest c e.1 collected) (subst (λ l. find_cluster id l ≡ ok c) shape f)

    find_in_head :
        (c : Cluster) (rest : List Cluster) (shown : Bool)
        → ((d : Cluster) × (find_cluster id rest ≡ ok d))
        → (d : Cluster) × (find_cluster id (add_if shown c rest) ≡ ok d)
    unfolding find_cluster
    find_in_head c rest false later = later
    find_in_head c rest true later = elim (Bool-cases (c.id == id)) [
      | inl hit ↦ (c, rw hit)
      | inr miss ↦ (later.0, rw miss later.1)
    ]

    find_here :
        (g : Group) (b c : Cluster) (rest : List Cluster)
        → g.1 ≡ containers_of g.0 seen
        → cluster_of st db g ≡ ok b
        → g.0 ≡ id
        → Found c
        → (d : Cluster) × (find_cluster id (add_if (visible ctx b.creator) b rest) ≡ ok d)
    unfolding find_cluster
    find_here g b c rest e built p found =
        let whole = subst (λ xs. cluster_of st db (g.0, xs) ≡ ok b) e built in
        let at_id = subst (λ i. cluster_of st db (i, containers_of i seen) ≡ ok b) p whole in
        let same : c ≡ b = ok-injective (sym found.0 ∙ at_id) in
        let shown = subst (λ x. visible ctx x.creator ≡ true) same found.1 in
        (b, rw shown (rw ((eq_iff b.id id).1 (id-cluster_of g b built ∙ p))))

    -- If the map has the ID, and its cluster is one that the caller may see, a cluster is found.
    find_total :
        (gs : List Group) (cs : List Cluster) (c : Cluster)
        → Entries seen gs
        → collect st ctx db gs ≡ ok cs
        → has_key id gs ≡ true
        → Found c
        → (d : Cluster) × (find_cluster id cs ≡ ok d)
    find_total [] cs c e h k found = cc
    find_total (g ∷ gs) cs c e h k found =
        let (b, rest, built, collected, shape) = collect-eq-ok g gs cs h in
        subst (λ l. (d : Cluster) × (find_cluster id l ≡ ok d)) (sym shape)
          (elim (Bool-cases (g.0 == id)) [
            | inl hit ↦ find_here g b c rest e.0.0 built ((eq_iff g.0 id).0 hit) found
            | inr miss ↦
                find_in_head b rest (visible ctx b.creator)
                  (find_total gs rest c e.1 collected (rw miss at k) found)
          ])

module _ (st : Storage) (dk : Docker) (order : List Group → List Group) (ctx : Context) where
  -- A listing is what the loop makes of the map in some order, and the map is as described.
  pub get_all-eq-ok :
      (s : Daemon st dk) (containers : List Container) (all : List Cluster)
      → dk.container_list s.engine ≡ ok containers
      → get_all_clusters st dk order ctx s ≡ ok all
      → collect st ctx s.db (order (group_containers [] containers)) ≡ ok all
  unfolding get_all_clusters
  get_all-eq-ok s containers all listed got = rw listed at got

  pub ordered-Entries :
      (containers : List Container)
      → Reorders order
      → Entries containers (order (group_containers [] containers))
  ordered-Entries containers reorders =
      All-perm _ (reorders _) (group_containers-Grouped containers).entries

  ordered-has_key :
      (containers : List Container) (id : String)
      → Reorders order
      → id ≢ ""
      → containers_of id containers ≢ []
      → has_key id (order (group_containers [] containers)) ≡ true
  ordered-has_key containers id reorders filled some_left =
      elim (Bool-cases (has_key id (group_containers [] containers))) [
        | inl there ↦ sym (has_key-perm id (reorders _)) ∙ there
        | inr absent ↦
            absurd (some_left ((group_containers-Grouped containers).complete id filled absent))
      ]

  -- A cluster is found by an ID exactly if it is the one that `cluster_of` builds from all
  -- containers with that label, in the order of Docker's list, and the caller may see it: so it
  -- does not depend on the order in which Go ranges over the map. Supposes that this order is a
  -- permutation, that Docker's list can be read and the listing succeeds, and that the ID is not
  -- empty and some container carries it.
  pub get_cluster_iff :
      (id : String) (s : Daemon st dk) (containers : List Container) (all : List Cluster)
      (c : Cluster)
      → Reorders order
      → dk.container_list s.engine ≡ ok containers
      → get_all_clusters st dk order ctx s ≡ ok all
      → id ≢ ""
      → containers_of id containers ≢ []
      → (get_cluster st dk order ctx id s ≡ ok c) ↔ (
          (cluster_of st s.db (id, containers_of id containers) ≡ ok c)
          × (visible ctx c.creator ≡ true))
  unfolding get_cluster
  get_cluster_iff id s containers all c reorders listed got filled some_left =
      let collected = get_all-eq-ok s containers all listed got in
      let entries = ordered-Entries containers reorders in
      (
        λ found. find_sound st ctx s.db containers id _ all c entries collected (rw got at found),
        λ found.
            let (d, hit) =
              find_total st ctx s.db containers id _ all c entries collected
                (ordered-has_key containers id reorders filled some_left) found in
            let there = find_sound st ctx s.db containers id _ all d entries collected hit in
            rw got (hit ∙ (sym there.0 ∙ found.0)),
      )

  -- The half of it that needs no hypothesis on the ID or on the listing.
  pub get_cluster_sound :
      (id : String) (s : Daemon st dk) (containers : List Container) (c : Cluster)
      → Reorders order
      → dk.container_list s.engine ≡ ok containers
      → get_cluster st dk order ctx id s ≡ ok c
      → (cluster_of st s.db (id, containers_of id containers) ≡ ok c)
        × (visible ctx c.creator ≡ true)
  unfolding get_cluster
  get_cluster_sound id s containers c reorders listed found =
      let (all, got, hit) =
        >>=-eq-ok (get_all_clusters st dk order ctx s) (λ (l : List Cluster). find_cluster id l)
          found in
      find_sound st ctx s.db containers id _ all c (ordered-Entries containers reorders)
        (get_all-eq-ok s containers all listed got) hit
