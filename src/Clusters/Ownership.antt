-- ===== src/Clusters/Ownership.antt =====
-- Who sees which clusters, and that no two clusters of a listing share an ID.
use cbdynclusterd.Prelude.{
  All-map, String, Bool, true, false, ◌||◌, List, [], ◌∷◌, ◌==◌, eq_iff, All, Permᴰ, Reorders, ◌≡◌,
  refl, arith, sym, ◌∙◌, subst,
}
use cbdynclusterd.Prelude.Result.{ok, ok-injective}
use cbdynclusterd.Meta.{Storage}
use cbdynclusterd.Context.{Context, context_user, context_ignore_ownership}
use cbdynclusterd.Docker.{Docker, Container}
use cbdynclusterd.Clusters.{Cluster, Group, Daemon, visible, add_if, collect, get_all_clusters}
use cbdynclusterd.Clusters.Grouping.{has_key, DistinctKeys, group_containers-Grouped}
use cbdynclusterd.Clusters.Lookup.{has_key-perm, id-cluster_of, collect-eq-ok, get_all-eq-ok}

abbrev pub has_id : String → List Cluster → Bool
has_id id [] = false
has_id id (c ∷ cs) = (c.id == id) || has_id id cs

abbrev pub DistinctIds : List Cluster → Type 0
DistinctIds [] = Unit
DistinctIds (c ∷ cs) = (has_id c.id cs ≡ false) × DistinctIds cs

DistinctKeys-swap :
    (a b : Group) (l : List Group) → DistinctKeys (a ∷ b ∷ l) → DistinctKeys (b ∷ a ∷ l)
DistinctKeys-swap a b l d = ground (arith, eq_iff a.0 b.0, eq_iff b.0 a.0)

DistinctKeys-perm : {xs ys : List Group} → Permᴰ xs ys → DistinctKeys xs → DistinctKeys ys
DistinctKeys-perm Permᴰ.nil d = tt
DistinctKeys-perm (Permᴰ.cons {a = a} {b = b} {l₁ = xs} e p) d = (
  sym (has_key-perm b.0 p) ∙ subst (λ (g : Group). has_key g.0 xs ≡ false) e d.0,
  DistinctKeys-perm p d.1,
)
DistinctKeys-perm (Permᴰ.swap {a = a} {b = b} {a' = a'} {b' = b'} {l = l} e f) d =
    subst (λ x. DistinctKeys (a' ∷ x ∷ l)) e
      (subst (λ y. DistinctKeys (y ∷ a ∷ l)) f (DistinctKeys-swap a b l d))
DistinctKeys-perm (Permᴰ.trans p q) d = DistinctKeys-perm q (DistinctKeys-perm p d)

has_id-add_if :
    (id : String) (shown : Bool) (c : Cluster) (cs : List Cluster)
    → c.id == id ≡ false
    → has_id id cs ≡ false
    → has_id id (add_if shown c cs) ≡ false
has_id-add_if id true c cs ne h = rw ne h
has_id-add_if id false c cs ne h = h

DistinctIds-add_if :
    (shown : Bool) (c : Cluster) (cs : List Cluster)
    → has_id c.id cs ≡ false
    → DistinctIds cs
    → DistinctIds (add_if shown c cs)
DistinctIds-add_if true c cs h d = (h, d)
DistinctIds-add_if false c cs h d = d

visible-add_if :
    (ctx : Context) (shown : Bool) (c : Cluster) (cs : List Cluster)
    → visible ctx c.creator ≡ shown
    → All (λ b. visible ctx b.creator ≡ true) cs
    → All (λ b. visible ctx b.creator ≡ true) (add_if shown c cs)
visible-add_if ctx true c cs h all = (h, all)
visible-add_if ctx false c cs h all = all

module _ (st : Storage) (ctx : Context) (db : st.Db) where
  collect-nil : (cs : List Cluster) → collect st ctx db [] ≡ ok cs → [] ≡ cs
  unfolding collect
  collect-nil cs h = ok-injective h

  has_id-collect :
      (id : String) (gs : List Group) (cs : List Cluster)
      → collect st ctx db gs ≡ ok cs
      → has_key id gs ≡ false
      → has_id id cs ≡ false
  has_id-collect id [] cs h k = subst (λ l. has_id id l ≡ false) (collect-nil cs h) refl
  has_id-collect id (g ∷ gs) cs h k =
      let (c, rest, built, collected, shape) = collect-eq-ok st ctx db g gs cs h in
      let other : c.id == id ≡ false = rw (id-cluster_of st ctx db g c built) (ground arith) in
      subst (λ l. has_id id l ≡ false) (sym shape)
        (has_id-add_if id (visible ctx c.creator) c rest other
          (has_id-collect id gs rest collected (ground arith)))

  collect-DistinctIds :
      (gs : List Group) (cs : List Cluster)
      → collect st ctx db gs ≡ ok cs
      → DistinctKeys gs
      → DistinctIds cs
  collect-DistinctIds [] cs h d = subst DistinctIds (collect-nil cs h) tt
  collect-DistinctIds (g ∷ gs) cs h d =
      let (c, rest, built, collected, shape) = collect-eq-ok st ctx db g gs cs h in
      let new : has_key c.id gs ≡ false = rw (id-cluster_of st ctx db g c built) d.0 in
      subst DistinctIds (sym shape) (
        DistinctIds-add_if (visible ctx c.creator) c rest
          (has_id-collect c.id gs rest collected new) (collect-DistinctIds gs rest collected d.1))

  collect-visible :
      (gs : List Group) (cs : List Cluster)
      → collect st ctx db gs ≡ ok cs
      → All (λ c. visible ctx c.creator ≡ true) cs
  collect-visible [] cs h = subst (All (λ c. visible ctx c.creator ≡ true)) (collect-nil cs h) tt
  collect-visible (g ∷ gs) cs h =
      let (c, rest, built, collected, shape) = collect-eq-ok st ctx db g gs cs h in
      subst (All (λ b. visible ctx b.creator ≡ true)) (sym shape)
        (visible-add_if ctx (visible ctx c.creator) c rest refl (collect-visible gs rest collected))

pub visible-own :
    (ctx : Context) (creator : String)
    → context_ignore_ownership ctx ≡ false
    → visible ctx creator ≡ true
    → creator ≡ context_user ctx
unfolding visible
visible-own ctx creator own v = ground (arith, eq_iff creator (context_user ctx))

module _ (st : Storage) (dk : Docker) (order : List Group → List Group) (ctx : Context) where
  -- The clusters of a listing have distinct IDs, and a caller who does not ignore ownership sees
  -- only clusters that he created. Supposes that the order of the range is a permutation, that
  -- Docker's list can be read, and that the listing succeeds.
  pub get_all_clusters-DistinctIds :
      (s : Daemon st dk) (containers : List Container) (all : List Cluster)
      → Reorders order
      → dk.container_list s.engine ≡ ok containers
      → get_all_clusters st dk order ctx s ≡ ok all
      → DistinctIds all
        × (context_ignore_ownership ctx ≡ false → All (λ c. c.creator ≡ context_user ctx) all)
  get_all_clusters-DistinctIds s containers all reorders listed got =
      let collected = get_all-eq-ok st dk order ctx s containers all listed got in
      (
        collect-DistinctIds st ctx s.db _ all collected
            (DistinctKeys-perm (reorders _) (group_containers-Grouped containers).distinct),
        λ own.
            All-map _ _ all (λ c v. visible-own ctx c.creator own v)
              (collect-visible st ctx s.db _ all collected),
      )
