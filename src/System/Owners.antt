-- ===== src/System/Owners.antt =====
-- Who owns the entries of the data base, over all that the daemon does.
use cbdynclusterd.Prelude.{String, true, List, [], ◌∷◌, ◌≡◌, subst, arith, sym, some, none}
use cbdynclusterd.Prelude.Text.{has_suffix}
use cbdynclusterd.Prelude.Int.{pos}
use cbdynclusterd.Prelude.Result.{Result, ok, err, panic, guard, ok-injective}
use cbdynclusterd.Prelude.Exec.{Exec, lift, reads, ◌>>=◌, ◌>>◌}
use cbdynclusterd.Prelude.Join.{Schedule, join}
use cbdynclusterd.Prelude.Keeps.{Keeps, continue-Keeps, >>=-Keeps, join-Keeps}
use cbdynclusterd.Time.{Time, Duration, add, hour}
use cbdynclusterd.Context.{Context, new_context, context_user}
use cbdynclusterd.Meta.{Storage, ClusterMeta, create_cluster_meta, read_meta, get_cluster_meta}
use cbdynclusterd.Meta.Laws.{IsStorage}
use cbdynclusterd.Meta.Entries.{Owned, update-Owned, create-Owned}
use cbdynclusterd.Docker.{Docker}
use cbdynclusterd.Images.{Config, Outside}
use cbdynclusterd.Version.{Products}
use cbdynclusterd.Clusters.{Group, Daemon, get_cluster}
use cbdynclusterd.Kill.{
  Choices, kill_node, kill_cluster, kill_clusters, cleanup_clusters, nodes_to_kill,
}
use cbdynclusterd.Refresh.{
  new_meta, prolong, write_refresh, create_or_update, refresh_cluster, on_db,
}
use cbdynclusterd.Allocate.{
  NodeOptions, ClusterOptions, allocate_node, allocate_job, start_nodes, ensure_first,
  kill_on_error, allocate_cluster, check_options, name_nodes, new_random_cluster_id,
}
use cbdynclusterd.WireJson.{CreateClusterJson, BuildImageJson}
use cbdynclusterd.Requests.{Request, get_http_context, create_options, timeout_to_refresh}
use cbdynclusterd.Handlers.{
  handle, http_create_cluster, http_update_cluster, http_delete_cluster, http_build_image,
  refresh_ignoring,
}
use cbdynclusterd.Start.{cleanup_round}
use cbdynclusterd.System.{
  Step, creates, updates, deletes, builds, cleans, engine_moves, Reachable, starts, steps_to,
}

-- The user's address is the company's.
abbrev pub IsCompany : String → Type 0
IsCompany user = has_suffix user "@couchbase.com" ≡ true

get_http_context-IsCompany :
    {A : Type 0} (r : Request A) (ctx : Context)
    → get_http_context r ≡ ok ctx
    → IsCompany (context_user ctx)
unfolding get_http_context new_context context_user
get_http_context-IsCompany r ctx h = ground arith

module _ (st : Storage) (laws : IsStorage st) (dk : Docker) where
  -- Every entry has an owner from the company.
  abbrev pub AllOwned : Daemon st dk → Type 0
  AllOwned s = Owned st IsCompany s.db

  handle-Keeps :
      {A B : Type 0} (r : Request A) (steps : Context → Exec (Daemon st dk) B)
      → ((ctx : Context) → IsCompany (context_user ctx) → Keeps AllOwned (steps ctx))
      → (s : Daemon st dk) → AllOwned s
      → AllOwned (handle r steps s).1
  unfolding handle
  handle-Keeps r steps each =
      continue-Keeps AllOwned (get_http_context r) steps
        (λ ctx h. each ctx (get_http_context-IsCompany r ctx h))

  kill_cluster-Keeps :
      (ch : Choices) (ctx : Context) (id : String) → Keeps AllOwned (kill_cluster st dk ch ctx id)
  unfolding kill_cluster kill_node
  kill_cluster-Keeps ch ctx id =
      >>=-Keeps AllOwned (reads (get_cluster st dk ch.order ctx id)) _ (λ s i. i)
        λ cluster.
          >>=-Keeps AllOwned (lift (guard _ _)) _ (λ s i. i)
            λ _.
              join-Keeps AllOwned (kill_node st dk) (λ x s i. i) (ch.nodes id)
                (nodes_to_kill cluster)

  cleanup_clusters-Keeps :
      (ch : Choices) (now : Time) → Keeps AllOwned (cleanup_clusters st dk ch now)
  unfolding cleanup_clusters kill_clusters
  cleanup_clusters-Keeps ch now =
      >>=-Keeps AllOwned (reads _) _ (λ s i. i)
        λ clusters. join-Keeps AllOwned _ (kill_cluster-Keeps ch _) ch.clusters _

  write_refresh-Owned :
      (id : String) (new : ClusterMeta) (db : st.Db)
      → IsCompany new.owner
      → Owned st IsCompany db
      → Owned st IsCompany (write_refresh st id new db).1
  unfolding write_refresh prolong
  write_refresh-Owned id new db company owned =
      elim (get_cluster_meta st id db).1
        as (λ e. Owned st IsCompany (create_or_update st id new e db).1) [
          | some e ↦ create-Owned st IsCompany laws id new db company owned
          | none ↦
              update-Owned st IsCompany laws id (λ meta. ok (prolong new meta)) db
                (λ old meta h.
                  subst (λ (m : ClusterMeta). IsCompany m.owner) (ok-injective h) company)
                owned
        ]

  refresh_cluster-Keeps :
      (order : List Group → List Group) (ctx : Context) (now : Time) (id : String) (t : Duration)
      → IsCompany (context_user ctx)
      → Keeps AllOwned (refresh_cluster st dk order ctx now id t)
  unfolding refresh_cluster new_meta
  refresh_cluster-Keeps order ctx now id t company =
      >>=-Keeps AllOwned (reads (get_cluster st dk order ctx id)) _ (λ s i. i)
        λ _ s i. write_refresh-Owned id (new_meta ctx now t) s.db company i

  module _ (cfg : Config) (out : Outside) where
    db-allocate_job :
        (ctx : Context) (id : String) (opts : NodeOptions) (s : Daemon st dk)
        → (allocate_job st dk cfg out ctx id opts s).1.db ≡ s.db
    unfolding allocate_job allocate_node
    db-allocate_job ctx id opts s = ground arith

    allocate_job-Keeps :
        (ctx : Context) (id : String) (opts : NodeOptions)
        → Keeps AllOwned (allocate_job st dk cfg out ctx id opts)
    allocate_job-Keeps ctx id opts s i =
        subst (Owned st IsCompany) (sym (db-allocate_job ctx id opts s)) i

    kill_on_error-Keeps :
        (ch : Choices) (ctx : Context) (id : String) (r : Result (Unit {0}))
        → Keeps AllOwned (kill_on_error st dk cfg out ch ctx id r)
    kill_on_error-Keeps ch ctx id (ok _) s i = i
    kill_on_error-Keeps ch ctx id (err e) s i = kill_cluster-Keeps ch ctx id s i
    kill_on_error-Keeps ch ctx id panic s i = i

    start_nodes-Keeps :
        (ch : Choices) (sched : Schedule NodeOptions) (ctx : Context) (id : String)
        (nodes : List NodeOptions)
        → Keeps AllOwned (start_nodes st dk cfg out ch sched ctx id nodes)
    unfolding start_nodes
    start_nodes-Keeps ch sched ctx id nodes s i =
        let m = allocate_job st dk cfg out ctx id in
        kill_on_error-Keeps ch ctx id (join sched m nodes s).0 (join sched m nodes s).1
          (join-Keeps AllOwned m (allocate_job-Keeps ctx id) sched nodes s i)

    ensure_first-Keeps :
        (nodes : List NodeOptions) → Keeps AllOwned (ensure_first st dk cfg out nodes)
    ensure_first-Keeps [] s i = i
    ensure_first-Keeps (n ∷ ns) s i = i

    allocate_cluster-Keeps :
        (ch : Choices) (sched : Schedule NodeOptions) (ctx : Context) (now : Time) (uuid : String)
        (opts : ClusterOptions)
        → IsCompany (context_user ctx)
        → Keeps AllOwned (allocate_cluster st dk cfg out ch sched ctx now uuid opts)
    unfolding allocate_cluster
    allocate_cluster-Keeps ch sched ctx now uuid opts company =
        let id = new_random_cluster_id uuid in
        let meta : ClusterMeta = record {
          owner = context_user ctx;
          timeout = add now (pos hour);
        } in
        let nodes = name_nodes 0 opts.nodes in
        let create = on_db st dk (create_cluster_meta st id meta) in
        let ensure = ensure_first st dk cfg out nodes in
        let start = start_nodes st dk cfg out ch sched ctx id nodes in
        >>=-Keeps AllOwned (lift (check_options opts)) (λ _. create >> (ensure >> start)) (λ s i. i)
          λ _.
            >>=-Keeps AllOwned create (λ _. ensure >> start)
              (λ s i. create-Owned st IsCompany laws id meta s.db company i)
              λ _.
                >>=-Keeps AllOwned ensure (λ _. start) (ensure_first-Keeps nodes)
                  λ _. start_nodes-Keeps ch sched ctx id nodes

    creates-Keeps :
        (ch : Choices) (sched : Schedule NodeOptions) (parse : String → Result Duration)
        (products : Result Products) (now : Time) (uuid : String) (r : Request CreateClusterJson)
        (s : Daemon st dk)
        → AllOwned s
        → AllOwned (http_create_cluster st dk cfg out ch sched parse products now uuid r s).1
    unfolding http_create_cluster
    creates-Keeps ch sched parse products now uuid r = handle-Keeps r _ λ ctx company.
        let allocate = allocate_cluster st dk cfg out ch sched ctx now uuid in
        let options : CreateClusterJson → Exec (Daemon st dk) ClusterOptions =
          λ req. lift (create_options parse products req) in
        >>=-Keeps AllOwned (lift r.body) (λ req. options req >>= allocate) (λ s i. i)
          λ req.
            >>=-Keeps AllOwned (options req) allocate (λ s i. i)
              λ opts. allocate_cluster-Keeps ch sched ctx now uuid opts company

    updates-Keeps :
        (order : List Group → List Group) (parse : String → Result Duration) (now : Time)
        (r : Request String) (s : Daemon st dk)
        → AllOwned s
        → AllOwned (http_update_cluster st dk order parse now r s).1
    unfolding http_update_cluster
    updates-Keeps order parse now r = handle-Keeps r _ λ ctx company.
        let refresh = refresh_ignoring st dk order ctx now r.cluster_id in
        let new_timeout : String → Exec (Daemon st dk) Duration =
          λ t. lift (timeout_to_refresh parse t) in
        >>=-Keeps AllOwned (lift r.body) (λ t. new_timeout t >>= refresh) (λ s i. i)
          λ t.
            >>=-Keeps AllOwned (new_timeout t) refresh (λ s i. i)
              λ d. refresh_cluster-Keeps order ctx now r.cluster_id d company

    db-build :
        (r : Request BuildImageJson) (s : Daemon st dk)
        → (http_build_image st dk cfg out r s).1.db ≡ s.db
    unfolding http_build_image handle
    db-build r s = ground arith

    Step-Keeps : {s t : Daemon st dk} → Step st dk cfg out s t → AllOwned s → AllOwned t
    unfolding http_delete_cluster cleanup_round
    Step-Keeps {s} (creates ch sched parse products now uuid r) =
        creates-Keeps ch sched parse products now uuid r s
    Step-Keeps {s} (updates order parse now r) = updates-Keeps order parse now r s
    Step-Keeps {s} (deletes ch r) =
        handle-Keeps r _ (λ ctx company. kill_cluster-Keeps ch ctx r.cluster_id) s
    Step-Keeps {s} (builds r) = subst (Owned st IsCompany) (sym (db-build r s))
    Step-Keeps {s} (cleans ch now) = cleanup_clusters-Keeps ch now s
    Step-Keeps (engine_moves engine) = λ i. i

    -- Whatever the daemon does, every entry that can be read names an owner whose address ends in
    -- @couchbase.com, if that holds of the data base it starts with. Supposes IsStorage.
    pub Reachable-AllOwned :
        (first s : Daemon st dk)
        → ((id : String) (m : ClusterMeta)
            → read_meta st id first.db ≡ ok m
            → has_suffix m.owner "@couchbase.com" ≡ true)
        → Reachable st dk cfg out first s
        → (id : String) (m : ClusterMeta) → read_meta st id s.db ≡ ok m
        → has_suffix m.owner "@couchbase.com" ≡ true
    Reachable-AllOwned first s owned starts = owned
    Reachable-AllOwned first s owned (steps_to before step) =
        Step-Keeps step (Reachable-AllOwned first _ owned before)
