-- ===== src/Kill/Effect.antt =====
-- What killCluster does to Docker's list, for a Docker that removes a container which it stops.
use mathlib.Core.Path.{fun_ext}
use cbdynclusterd.Prelude.{
  String, Bool, true, false, not, ◌||◌, ◌&&◌, List, [], ◌∷◌, keep, keep-keep, keep_all, All, Permᴰ,
  ◌==◌, eq_iff, ◌≡◌, refl, sym, ◌∙◌, ap, arith,
}
use cbdynclusterd.Prelude.Result.{Result, ok, err, panic, guard, guard-eq-ok, failure}
use cbdynclusterd.Prelude.Exec.{Exec, lift, ◌>>◌, continue-eq-ok}
use cbdynclusterd.Prelude.Join.{run_all, join, IsOk}
use cbdynclusterd.Meta.{Storage}
use cbdynclusterd.Context.{Context}
use cbdynclusterd.Docker.{Docker, Container}
use cbdynclusterd.Clusters.{Cluster, Daemon, short_id, get_cluster}
use cbdynclusterd.Kill.{Choices, kill_node, may_kill, nodes_to_kill, kill_cluster}

abbrev pub is_short : String → Result String → Bool
is_short x (ok y) = y == x
is_short x (err e) = false
is_short x panic = false

-- The first 12 characters of the container's ID are `x`.
abbrev pub has_short : String → Container → Bool
has_short x c = is_short x (short_id c.id)

is_short-eq : (x : String) (r : Result String) → is_short x r ≡ true → r ≡ ok x
is_short-eq x (ok y) h = ap ok ((eq_iff y x).0 h)
is_short-eq x (err e) h = cc
is_short-eq x panic h = cc

pub has_short-eq : (x : String) (c : Container) → has_short x c ≡ true → short_id c.id ≡ ok x
has_short-eq x c h = is_short-eq x (short_id c.id) h

abbrev pub any_short : List String → Container → Bool
any_short [] c = false
any_short (x ∷ xs) c = has_short x c || any_short xs c

-- Docker takes the first characters of an ID for the ID, and removes a container that was created
-- with AutoRemove when it stops.
pub record IsDocker (dk : Docker) : Type 0 where
  pub list-stop :
      (e e' : dk.Engine) (cs : List Container) (x : String)
      → dk.container_list e ≡ ok cs
      → dk.container_stop x e ≡ (ok tt, e')
      → dk.container_list e' ≡ ok (keep (λ c. not (has_short x c)) cs)

pub any_short-perm :
    (c : Container) {xs ys : List String} → Permᴰ xs ys → any_short xs c ≡ any_short ys c
any_short-perm c Permᴰ.nil = refl
any_short-perm c (Permᴰ.cons e p) = rw (e, any_short-perm c p)
any_short-perm c (Permᴰ.swap e f) = rw (sym e, sym f) (ground arith)
any_short-perm c (Permᴰ.trans p q) = any_short-perm c p ∙ any_short-perm c q

neither :
    (x : String) (xs : List String)
    → ◌≡◌ {A = Container → Bool}
        (λ c. not (has_short x c) && not (any_short xs c))
        (λ c. not (any_short (x ∷ xs) c))
neither x xs = fun_ext λ c. ground arith

module _ (st : Storage) (dk : Docker) (laws : IsDocker dk) where
  -- Stops that all succeed leave the containers with other IDs, in their order.
  pub run_all-kill_node :
      (xs : List String) (s : Daemon st dk) (cs : List Container)
      → dk.container_list s.engine ≡ ok cs
      → All IsOk (run_all (kill_node st dk) xs s).0
      → (dk.container_list (run_all (kill_node st dk) xs s).1.engine
          ≡ ok (keep (λ c. not (any_short xs c)) cs))
        × ((run_all (kill_node st dk) xs s).1.db ≡ s.db)
  unfolding run_all kill_node
  run_all-kill_node [] s cs listed h = (rw keep_all listed, refl)
  run_all-kill_node (x ∷ xs) s cs listed h =
      let stopped =
        laws.list-stop s.engine _ cs x listed (λ i. (h.0 i, (dk.container_stop x s.engine).1)) in
      let later =
        run_all-kill_node xs (record s { engine = (dk.container_stop x s.engine).1 }) _ stopped
          h.1 in
      (later.0 ∙ ap ok (keep-keep _ _ cs ∙ ap (λ p. keep p cs) (neither x xs)), later.1)

module _ (st : Storage) (dk : Docker) where
  -- The steps of killCluster after the look-up.
  abbrev pub stop_nodes : Choices → String → Cluster → Exec (Daemon st dk) (Unit {0})
  stop_nodes ch id c = join (ch.nodes id) (kill_node st dk) (nodes_to_kill c)

  abbrev checked_stop : Choices → Context → String → Cluster → Exec (Daemon st dk) (Unit {0})
  checked_stop ch ctx id c =
      lift (guard (may_kill ctx c) (failure "cannot kill clusters you don't own"))
      >> stop_nodes ch id c

  -- A kill that succeeds found a cluster that the caller may kill, and stopped all its nodes.
  pub kill_cluster-eq-ok :
      (ch : Choices) (ctx : Context) (id : String) (s : Daemon st dk)
      → (kill_cluster st dk ch ctx id s).0 ≡ ok tt
      → (c : Cluster) × (get_cluster st dk ch.order ctx id s ≡ ok c)
        × (may_kill ctx c ≡ true)
        × ((join (ch.nodes id) (kill_node st dk) (nodes_to_kill c) s).0 ≡ ok tt)
        × (kill_cluster st dk ch ctx id s
            ≡ join (ch.nodes id) (kill_node st dk) (nodes_to_kill c) s)
  unfolding kill_cluster
  kill_cluster-eq-ok ch ctx id s h =
      let (c, got, same) =
        continue-eq-ok (get_cluster st dk ch.order ctx id s) (checked_stop ch ctx id) s tt h in
      let h' = sym (ap (λ (r : Result (Unit {0}) × Daemon st dk). r.0) same) ∙ h in
      let (u, allowed, same') =
        continue-eq-ok (guard (may_kill ctx c) (failure "cannot kill clusters you don't own"))
          (λ _. stop_nodes ch id c) s tt h' in
      let done = sym (ap (λ (r : Result (Unit {0}) × Daemon st dk). r.0) same') ∙ h' in
      (c, got, guard-eq-ok _ _ allowed, done, same ∙ same')
