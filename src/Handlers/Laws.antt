-- ===== src/Handlers/Laws.antt =====
-- What the handlers answer, and for whom they act.
use cbdynclusterd.Prelude.{
  String, true, false, List, Reorders, length, ◌≡◌, ◌≢◌, ◌≤◌, sym, refl, ◌∙◌, ap, subst, arith,
  eq_iff, ◌==◌, none, Option,
}
use cbdynclusterd.Prelude.Int.{pos, ◌≤ℤ◌}
use cbdynclusterd.Prelude.Text.{has_suffix}
use cbdynclusterd.Prelude.Result.{Error, Result, ok, err, panic}
use cbdynclusterd.Prelude.Exec.{Exec, lift, continue, continue-eq-ok, ◌>>=◌}
use cbdynclusterd.Prelude.Join.{Schedule}
use cbdynclusterd.Time.{Time, Duration, hour, add, IsWritable}
use cbdynclusterd.Meta.{Storage, ClusterMeta, get_cluster_meta}
use cbdynclusterd.Meta.Laws.{IsStorage, stored}
use cbdynclusterd.Context.{Context, context_user, context_ignore_ownership, new_context}
use cbdynclusterd.Docker.{Docker, Container}
use cbdynclusterd.Version.{Products}
use cbdynclusterd.Images.{Config, Outside}
use cbdynclusterd.Clusters.{Cluster, Group, Daemon, get_cluster}
use cbdynclusterd.Kill.{Choices, kill_cluster}
use cbdynclusterd.Kill.Safety.{kill_needs_ownership}
use cbdynclusterd.Refresh.{refresh_cluster}
use cbdynclusterd.Allocate.{NodeOptions, ClusterOptions, two_weeks, allocate_cluster}
use cbdynclusterd.Allocate.Laws.{allocate_cluster-eq-ok}
use cbdynclusterd.WireJson.{CreateClusterJson}
use cbdynclusterd.Requests.{
  Request, reply, respond, get_http_context, create_options, requested_timeout, timeout_to_refresh,
}
use cbdynclusterd.Requests.Laws.{length-create_options}
use cbdynclusterd.Handlers.{handle, http_delete_cluster, http_update_cluster, http_create_cluster}

-- The context of a request that is accepted.
abbrev pub request_context : {A : Type 0} → Request A → Context
request_context r = new_context r.context r.user (r.admin == "true")

get_http_context-eq-ok :
    {A : Type 0} (r : Request A) (ctx : Context)
    → get_http_context r ≡ ok ctx
    → (has_suffix r.user "@couchbase.com" ≡ true) × (ctx ≡ request_context r)
unfolding get_http_context
get_http_context-eq-ok r ctx h = ground arith

continue-handled :
    {A S : Type 0} (r : Result Context) (steps : Context → Exec S A) (s : S) (a : A)
    → respond (continue r steps s).0 ≡ reply a
    → (ctx : Context) × (r ≡ ok ctx) × (continue r steps s ≡ steps ctx s) × ((steps ctx s).0 ≡ ok a)
unfolding respond
continue-handled (ok ctx) steps s a h = (ctx, refl, refl, ground arith)
continue-handled (err e) steps s a h = cc
continue-handled panic steps s a h = cc

-- A handler that replies ran its steps, in the request's context.
pub handle-eq-reply :
    {A B S : Type 0} (r : Request A) (steps : Context → Exec S B) (s : S) (b : B)
    → (handle r steps s).0 ≡ reply b
    → (has_suffix r.user "@couchbase.com" ≡ true)
      × ((steps (request_context r) s).0 ≡ ok b)
      × ((handle r steps s).1 ≡ (steps (request_context r) s).1)
unfolding handle
handle-eq-reply r steps s b h =
    let (ctx, accepted, same, done) = continue-handled (get_http_context r) steps s b h in
    let (suffix, is_it) = get_http_context-eq-ok r ctx accepted in
    (
      suffix,
      subst (λ c. (steps c s).0 ≡ ok b) is_it done,
      ap (λ p. p.1) same ∙ ap (λ c. (steps c s).1) is_it,
    )

admin_header :
    {A : Type 0} (r : Request A)
    → r.admin ≢ "true"
    → context_ignore_ownership (request_context r) ≡ false
unfolding new_context context_ignore_ownership
admin_header r ne = ground (arith, eq_iff r.admin "true")

request_user : {A : Type 0} (r : Request A) → context_user (request_context r) ≡ r.user
unfolding new_context context_user
request_user r = refl

module _ (st : Storage) (dk : Docker) where
  -- A DELETE that is answered with 200 had a user with an @couchbase.com address, and unless it
  -- carried the header cbdn-admin: true, that user both created and owned the cluster. Supposes
  -- that the order is a permutation, that Docker's list can be read, and that getCluster finds a
  -- cluster in the request's context.
  pub delete_needs_ownership :
      (ch : Choices) (r : Request (Unit {0})) (s : Daemon st dk) (containers : List Container)
      (c : Cluster)
      → Reorders ch.order
      → dk.container_list s.engine ≡ ok containers
      → get_cluster st dk ch.order (new_context r.context r.user (r.admin == "true")) r.cluster_id s
        ≡ ok c
      → (http_delete_cluster st dk ch r s).0 ≡ reply tt
      → (has_suffix r.user "@couchbase.com" ≡ true)
        × (r.admin ≢ "true" → (c.creator ≡ r.user) × (c.owner ≡ r.user))
  unfolding http_delete_cluster
  delete_needs_ownership ch r s containers c reorders listed got h =
      let (suffix, done, same) =
        handle-eq-reply r (λ ctx. kill_cluster st dk ch ctx r.cluster_id) s tt h in
      (
        suffix,
        λ ne.
            let (creator, owner) =
              (kill_needs_ownership st dk ch (request_context r) r.cluster_id s containers c
                  reorders listed (admin_header r ne) got).0
                done in
            (creator ∙ request_user r, owner ∙ request_user r),
      )

  -- A PUT with an accepted user and a time that can be read is answered with 200 whether the
  -- refresh succeeds or gives an error; the state is what the refresh leaves. Supposes that it does
  -- not panic.
  update_ignores_error :
      (order : List Group → List Group) (parse : String → Result Duration) (now : Time)
      (r : Request String) (s : Daemon st dk) (ctx : Context) (timeout : String) (d : Duration)
      → get_http_context r ≡ ok ctx
      → r.body ≡ ok timeout
      → timeout ≢ ""
      → parse timeout ≡ ok d
      → (refresh_cluster st dk order ctx now r.cluster_id d s).0 ≢ panic
      → http_update_cluster st dk order parse now r s
        ≡ (reply tt, (refresh_cluster st dk order ctx now r.cluster_id d s).1)
  unfolding http_update_cluster handle timeout_to_refresh respond
  update_ignores_error order parse now r s ctx timeout d accepted read given parsed calm =
      rw (accepted, read, timeout_given, parsed) (ground arith)
    where
      timeout_given : timeout == "" ≡ false
      timeout_given = ground (arith, eq_iff timeout "")

module _ (st : Storage) (laws : IsStorage st) (dk : Docker) (cfg : Config) (out : Outside) where
  -- A POST of a cluster that is answered with 200 asked for 1 to 10 nodes, and for a time between
  -- 0 and two weeks (one hour if it named none); the store then has an entry for the answered ID
  -- that names the user as the owner, and one hour from `now`, rounded down to the second, as the
  -- expiry, whatever time was asked for. Supposes IsStorage, that the body could be decoded, and
  -- that this expiry has a year from 1 to 9999.
  pub create_answered :
      (ch : Choices) (sched : Schedule NodeOptions) (parse : String → Result Duration)
      (products : Result Products) (now : Time) (uuid id : String) (r : Request CreateClusterJson)
      (req : CreateClusterJson) (s : Daemon st dk)
      → IsWritable (add now (pos hour))
      → r.body ≡ ok req
      → (http_create_cluster st dk cfg out ch sched parse products now uuid r s).0 ≡ reply id
      → (t : Duration) × (requested_timeout parse req.timeout ≡ ok t)
        × (pos 0 ≤ℤ t)
        × (t ≤ℤ two_weeks)
        × (1 ≤ length req.nodes)
        × (length req.nodes ≤ 10)
        × (get_cluster_meta st id
              (http_create_cluster st dk cfg out ch sched parse products now uuid r s).1.db
            ≡ (stored (record { owner = r.user; timeout = add now (pos hour) }), none))
  unfolding http_create_cluster
  create_answered ch sched parse products now uuid id r req s w read h =
      let (suffix, done, same) = handle-eq-reply r steps s id h in
      let ran : (with_req (ok req) (request_context r) s).0 ≡ ok id =
        subst (λ b. (with_req b (request_context r) s).0 ≡ ok id) read done in
      let (opts, made, is_it) =
        continue-eq-ok (create_options parse products req) (allocate (request_context r)) s id
          ran in
      let (from, upto, some_left, few, got, stored_meta) =
        allocate_cluster-eq-ok st dk cfg out laws ch sched (request_context r) now uuid id opts s w
          (sym (ap (λ p. p.0) is_it) ∙ ran) in
      let state =
        same ∙ ap (λ b. (with_req b (request_context r) s).1) read ∙ ap (λ p. p.1) is_it in
      let (timed, same_length) = length-create_options parse products req opts made in
      (
        opts.timeout,
        timed,
        from,
        upto,
        subst (λ n. 1 ≤ n) same_length some_left,
        subst (λ n. n ≤ 10) same_length few,
        ap (λ (x : Daemon st dk). get_cluster_meta st id x.db) state
            ∙ stored_meta
            ∙ ap entry_of (request_user r),
      )
    where
      entry_of : String → ClusterMeta × Option Error
      entry_of owner = (stored (record { owner = owner; timeout = add now (pos hour) }), none)

      allocate : Context → ClusterOptions → Exec (Daemon st dk) String
      allocate ctx opts = allocate_cluster st dk cfg out ch sched ctx now uuid opts

      with_req : Result CreateClusterJson → Context → Exec (Daemon st dk) String
      with_req body ctx = do
        req_data ← lift body
        opts ← lift (create_options parse products req_data)
        allocate ctx opts

      steps : Context → Exec (Daemon st dk) String
      steps = with_req r.body
