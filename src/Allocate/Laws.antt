-- ===== src/Allocate/Laws.antt =====
-- What an allocation checks, and what it stores.
use mathlib.Core.Option
use cbdynclusterd.Prelude.{
  ℕ, zero, suc, ◌+◌, ◌≤◌, String, List, [], ◌∷◌, length, get_elem?, ◌↔◌, ◌≡◌, ◌≢◌, refl, sym, ◌∙◌,
  ap, subst, arith, if◌then◌else◌, ◌==◌, none, some,
}
use cbdynclusterd.Prelude.Int.{pos, ◌≤ℤ◌}
use cbdynclusterd.Prelude.Text.{show_nat}
use cbdynclusterd.Prelude.Result.{Error, Result, ok, err, panic, ok-injective}
use cbdynclusterd.Prelude.Exec.{Exec, continue, continue-eq-ok, ◌>>=◌}
use cbdynclusterd.Prelude.Join.{Schedule, run_all, join}
use cbdynclusterd.Time.{Time, hour, add, IsWritable}
use cbdynclusterd.Meta.{Storage, ClusterMeta, create_cluster_meta, get_cluster_meta}
use cbdynclusterd.Meta.Laws.{IsStorage, stored, get-create}
use cbdynclusterd.Context.{Context, context_user}
use cbdynclusterd.Docker.{Docker}
use cbdynclusterd.Images.{Config, Outside}
use cbdynclusterd.Clusters.{Daemon}
use cbdynclusterd.Kill.{Choices, kill_cluster}
use cbdynclusterd.Refresh.{on_db}
use cbdynclusterd.Allocate.{
  NodeOptions, ClusterOptions, two_weeks, check_options, name_nodes, new_random_cluster_id,
  allocate_node, allocate_job, start_nodes, after_kill, ensure_first, allocate_cluster,
  kill_on_error,
}
use Prim.Native.String.{◌++◌}

-- The options are accepted exactly if the time lies between 0 and two weeks and there are from 1 to
-- 10 nodes.
pub check_options_iff :
    (opts : ClusterOptions)
    → (check_options opts ≡ ok tt) ↔ (
        (pos 0 ≤ℤ opts.timeout)
        × (opts.timeout ≤ℤ two_weeks)
        × (1 ≤ length opts.nodes)
        × (length opts.nodes ≤ 10))
unfolding check_options
check_options_iff opts = (λ h. ground arith, λ h. ground arith)

-- The name of the node at an index.
abbrev pub named : ℕ → NodeOptions → NodeOptions
named k n = record n { name = if n.name == "" then "node_" ++ show_nat (k + 1) else n.name }

-- A node without a name is called by its place, counted from 1; names that are given stay, and so
-- does the order.
get_elem?-name_nodes :
    (ns : List NodeOptions) (i k : ℕ)
    → get_elem? (name_nodes i ns) k ≡ Option.map (named (i + k)) (get_elem? ns k)
unfolding name_nodes
get_elem?-name_nodes [] i k = refl
get_elem?-name_nodes (n ∷ ns) i zero = ap (λ j. some (named j n)) (omega arith)
get_elem?-name_nodes (n ∷ ns) i (suc k) =
    get_elem?-name_nodes ns (suc i) k
    ∙ ap (λ j. Option.map (named j) (get_elem? ns k)) (omega arith)

module _ (st : Storage) (dk : Docker) where
  -- An action that leaves the data base alone.
  abbrev KeepsDb : {A : Type 0} → Exec (Daemon st dk) A → Type 0
  KeepsDb m = (s : Daemon st dk) → (m s).1.db ≡ s.db

  continue-KeepsDb :
      {A B : Type 0} (r : Result A) (f : A → Exec (Daemon st dk) B) (s : Daemon st dk)
      → ((a : A) → KeepsDb (f a))
      → (continue r f s).1.db ≡ s.db
  continue-KeepsDb (ok a) f s k = k a s
  continue-KeepsDb (err e) f s k = refl
  continue-KeepsDb panic f s k = refl

  bind-KeepsDb :
      {A B : Type 0} (m : Exec (Daemon st dk) A) (f : A → Exec (Daemon st dk) B)
      → KeepsDb m
      → ((a : A) → KeepsDb (f a))
      → KeepsDb (m >>= f)
  bind-KeepsDb m f km kf s = continue-KeepsDb (m s).0 f (m s).1 kf ∙ km s

  run_all-KeepsDb :
      {X : Type 0} (f : X → Exec (Daemon st dk) (Unit {0})) (xs : List X) (s : Daemon st dk)
      → ((x : X) → KeepsDb (f x))
      → (run_all f xs s).1.db ≡ s.db
  unfolding run_all
  run_all-KeepsDb f [] s k = refl
  run_all-KeepsDb f (x ∷ xs) s k = run_all-KeepsDb f xs (f x s).1 k ∙ k x s

module _ (st : Storage) (dk : Docker) (cfg : Config) (out : Outside) where
  allocate_job-KeepsDb :
      (ctx : Context) (id : String) (n : NodeOptions)
      → KeepsDb st dk (allocate_job st dk cfg out ctx id n)
  unfolding allocate_job allocate_node
  allocate_job-KeepsDb ctx id n s = ground arith

  ensure_first-KeepsDb : (ns : List NodeOptions) → KeepsDb st dk (ensure_first st dk cfg out ns)
  ensure_first-KeepsDb [] s = refl
  ensure_first-KeepsDb (n ∷ ns) s = refl

  after_kill-ne-ok : (r : Result (Unit {0})) (e : Error) (got : String) → after_kill r e ≢ ok got
  after_kill-ne-ok (ok u) e got h = cc
  after_kill-ne-ok (err f) e got h = cc
  after_kill-ne-ok panic e got h = cc

  kill_on_error-eq-ok :
      (ch : Choices) (ctx : Context) (id got : String) (r : Result (Unit {0})) (s : Daemon st dk)
      → (kill_on_error st dk cfg out ch ctx id r s).0 ≡ ok got
      → (got ≡ id) × ((kill_on_error st dk cfg out ch ctx id r s).1 ≡ s)
  kill_on_error-eq-ok ch ctx id got (ok u) s h = (sym (ok-injective h), refl)
  kill_on_error-eq-ok ch ctx id got (err e) s h =
      absurd (after_kill-ne-ok (kill_cluster st dk ch ctx id s).0 e got h)
  kill_on_error-eq-ok ch ctx id got panic s h = cc

  join-KeepsDb :
      (sched : Schedule NodeOptions) (ctx : Context) (id : String) (ns : List NodeOptions)
      (s : Daemon st dk)
      → (join sched (allocate_job st dk cfg out ctx id) ns s).1.db ≡ s.db
  unfolding join
  join-KeepsDb sched ctx id ns s =
      run_all-KeepsDb st dk (allocate_job st dk cfg out ctx id) (sched.run ns) s
        (allocate_job-KeepsDb ctx id)

  -- Nodes that are all started leave the data base alone, and the cluster's ID is the result.
  start_nodes-eq-ok :
      (ch : Choices) (sched : Schedule NodeOptions) (ctx : Context) (id got : String)
      (ns : List NodeOptions) (s : Daemon st dk)
      → (start_nodes st dk cfg out ch sched ctx id ns s).0 ≡ ok got
      → (got ≡ id) × ((start_nodes st dk cfg out ch sched ctx id ns s).1.db ≡ s.db)
  unfolding start_nodes
  start_nodes-eq-ok ch sched ctx id got ns s h =
      let (same, left) =
        kill_on_error-eq-ok ch ctx id got (join sched (allocate_job st dk cfg out ctx id) ns s).0
          (join sched (allocate_job st dk cfg out ctx id) ns s).1 h in
      (same, ap (λ (d : Daemon st dk). d.db) left ∙ join-KeepsDb sched ctx id ns s)

  -- A cluster that is allocated has a permitted time and number of nodes, its ID is the beginning
  -- of the UUID, and its entry in the store names the caller as the owner and one hour from `now`
  -- as the expiry, rounded down to the second, whatever time was asked for. Supposes IsStorage,
  -- and that this expiry has a year from 1 to 9999.
  pub allocate_cluster-eq-ok :
      IsStorage st
      → (ch : Choices) (sched : Schedule NodeOptions) (ctx : Context) (now : Time)
        (uuid id : String) (opts : ClusterOptions) (s : Daemon st dk)
      → IsWritable (add now (pos hour))
      → (allocate_cluster st dk cfg out ch sched ctx now uuid opts s).0 ≡ ok id
      → (pos 0 ≤ℤ opts.timeout)
        × (opts.timeout ≤ℤ two_weeks)
        × (1 ≤ length opts.nodes)
        × (length opts.nodes ≤ 10)
        × (id ≡ new_random_cluster_id uuid)
        × (get_cluster_meta st id (allocate_cluster st dk cfg out ch sched ctx now uuid opts s).1.db
            ≡ (stored (record { owner = context_user ctx; timeout = add now (pos hour) }), none))
  unfolding allocate_cluster
  allocate_cluster-eq-ok laws ch sched ctx now uuid id opts s w h =
      let (_, checked, e1) = continue-eq-ok (check_options opts) create s id h in
      let h1 = sym (ap (λ (r : Result String × Daemon st dk). r.0) e1) ∙ h in
      let (_, created, e2) =
        continue-eq-ok (create_cluster_meta st new_id meta s.db).0 ensure s1 id h1 in
      let h2 = sym (ap (λ (r : Result String × Daemon st dk). r.0) e2) ∙ h1 in
      let (_, ensured, e3) = continue-eq-ok (ensure_first st dk cfg out ns s1).0 start s2 id h2 in
      let h3 = sym (ap (λ (r : Result String × Daemon st dk). r.0) e3) ∙ h2 in
      let (same, kept) = start_nodes-eq-ok ch sched ctx new_id id ns s2 h3 in
      let db : (allocate_cluster st dk cfg out ch sched ctx now uuid opts s).1.db ≡ s1.db =
        ap (λ (r : Result String × Daemon st dk). r.1.db) (e1 ∙ (e2 ∙ e3))
        ∙ (kept ∙ ensure_first-KeepsDb (name_nodes 0 opts.nodes) s1) in
      let (low, high, some_node, few) = (check_options_iff opts).0 checked in
      (
        low,
        high,
        some_node,
        few,
        same,
        subst (λ d. get_cluster_meta st id d ≡ (stored meta, none)) (sym db)
            (subst (λ i. get_cluster_meta st i s1.db ≡ (stored meta, none)) (sym same)
              (get-create st laws new_id meta s.db s1.db w (λ i. (created i, s1.db)))),
      )
    where
      new_id : String
      new_id = new_random_cluster_id uuid

      meta : ClusterMeta
      meta = record { owner = context_user ctx; timeout = add now (pos hour) }

      ns : List NodeOptions
      ns = name_nodes 0 opts.nodes

      s1 : Daemon st dk
      s1 = (on_db st dk (create_cluster_meta st new_id meta) s).1

      s2 : Daemon st dk
      s2 = (ensure_first st dk cfg out ns s1).1

      start : Unit {0} → Exec (Daemon st dk) String
      start _ = start_nodes st dk cfg out ch sched ctx new_id ns

      ensure : Unit {0} → Exec (Daemon st dk) String
      ensure _ = ensure_first st dk cfg out ns >>= start

      create : Unit {0} → Exec (Daemon st dk) String
      create _ = on_db st dk (create_cluster_meta st new_id meta) >>= ensure
