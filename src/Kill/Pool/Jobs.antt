-- ===== src/Kill/Pool/Jobs.antt =====
-- The jobs of a pool, and what is left of one.
use cbdynclusterd.Prelude.{
  String, Bool, true, false, not, ◌&&◌, ◌==◌, List, [], ◌∷◌, map, All_of, All-map2, All, All-map,
  ◌≡◌, refl, subst, ap, arith, Bool-cases, inl, inr,
}
use cbdynclusterd.Prelude.Result.{Result, ok, err, panic}
use cbdynclusterd.Prelude.Join.{keep_first}
use cbdynclusterd.Context.{Context}
use cbdynclusterd.Docker.{Container}
use cbdynclusterd.Clusters.{Cluster, label, cluster_id_label}
use cbdynclusterd.Kill.{may_kill, nodes_to_kill}
use cbdynclusterd.Kill.Effect.{has_short, any_short}
use cbdynclusterd.Kill.Removal.{in_clusters}
use cbdynclusterd.Kill.Pool.{Job, pending, killing, start_kill, Picks, Takes}

-- No error so far.
abbrev pub IsFine : Job → Type 0
IsFine (pending id) = Unit {0}
IsFine (killing id xs r) = r ≡ ok tt

-- Its cluster was found and all its nodes were stopped without an error.
abbrev pub IsDone : Job → Type 0
IsDone (pending id) = ⊥
IsDone (killing id xs r) = (xs ≡ []) × (r ≡ ok tt)

abbrev pub job_id : Job → String
job_id (pending id) = id
job_id (killing id xs r) = id

module _ (P : Job → Type 0) {j j' : Job} where
  pub Picks-All : {js js' : List Job} → (P j → P j') → Picks j j' js js' → All P js → All P js'
  Picks-All f Picks.this h = (f h.0, h.1)
  Picks-All f (Picks.other p) h = (h.0, Picks-All f p h.1)

  pub picked : {js js' : List Job} → Picks j j' js js' → All P js → P j
  picked Picks.this h = h.0
  picked (Picks.other p) h = picked p h.1

  pub result : {js js' : List Job} → Picks j j' js js' → All P js' → P j'
  result Picks.this h = h.0
  result (Picks.other p) h = result p h.1

  pub Picks-back : {js js' : List Job} → P j → Picks j j' js js' → All P js' → All P js
  Picks-back f Picks.this h = (f, h.1)
  Picks-back f (Picks.other p) h = (h.0, Picks-back f p h.1)

pub Picks-ids :
    {j j' : Job} {js js' : List Job}
    → job_id j ≡ job_id j'
    → Picks j j' js js'
    → map job_id js ≡ map job_id js'
Picks-ids e (Picks.this {js}) = ap (λ i. i ∷ map job_id js) e
Picks-ids e (Picks.other {k} p) = ap (λ is. job_id k ∷ is) (Picks-ids e p)

pub pending-ids : (ids : List String) → map job_id (map pending ids) ≡ ids
pending-ids [] = refl
pending-ids (i ∷ is) = ap (λ js. i ∷ js) (pending-ids is)

pub All-pending :
    (P : Job → Type 0)
    → ((id : String) → P (pending id))
    → (ids : List String) → All P (map pending ids)
All-pending P h [] = tt
All-pending P h (i ∷ is) = (h i, All-pending P h is)

-- A container of a picked job's cluster is of one of the clusters.
pub picked_in :
    {j j' : Job} {js js' : List Job} (c : Container)
    → Picks j j' js js'
    → label cluster_id_label c == job_id j ≡ true
    → in_clusters (map job_id js) c ≡ true
picked_in c Picks.this e = ground arith
picked_in c (Picks.other p) e = ground (arith, picked_in c p e)

any_short-Takes :
    {x : String} {xs ys : List String} (c : Container)
    → Takes x xs ys
    → any_short xs c ≡ true
    → has_short x c ≡ false
    → any_short ys c ≡ true
any_short-Takes c Takes.at_head h e = ground arith
any_short-Takes c (Takes.in_tail t) h e = ground (arith, any_short-Takes c t)

pub All-Takes :
    (P : String → Type 0) {x : String} {xs ys : List String}
    → Takes x xs ys
    → All P xs
    → P x × All P ys
All-Takes P Takes.at_head h = h
All-Takes P (Takes.in_tail t) h = let (a, b) = All-Takes P t h.1 in (a, (h.0, b))

pub both_ok : (r r' : Result (Unit {0})) → keep_first r r' ≡ ok tt → (r ≡ ok tt) × (r' ≡ ok tt)
both_ok (ok u) r' h = (refl, h)
both_ok (err e) (ok u) h = cc
both_ok (err e) (err d) h = cc
both_ok (err e) panic h = cc
both_ok panic r' h = cc

pub start_kill-IsFine :
    (ctx : Context) (id : String) (r : Result Cluster)
    → IsFine (start_kill ctx id r)
    → (c : Cluster) × (r ≡ ok c) × (start_kill ctx id r ≡ killing id (nodes_to_kill c) (ok tt))
unfolding start_kill
start_kill-IsFine ctx id (ok c) h = elim (Bool-cases (may_kill ctx c)) [
  | inl may ↦ (c, refl, rw may)
  | inr not_his ↦ cc (rw not_his at h)
]
start_kill-IsFine ctx id (err e) h = cc
start_kill-IsFine ctx id panic h = cc

pub job_id-start_kill :
    (ctx : Context) (id : String) (r : Result Cluster) → id ≡ job_id (start_kill ctx id r)
unfolding start_kill
job_id-start_kill ctx id (ok c) = ground arith
job_id-start_kill ctx id (err e) = refl
job_id-start_kill ctx id panic = refl

module _ (label_of : String → String) (containers : List Container) where
  -- What is left of a job names what is left of its cluster, and nothing else.
  abbrev pub Names : (Container → Bool) → Job → Type 0
  Names p (pending id) = Unit {0}
  Names p (killing id xs r) =
      All (λ c. p c ≡ true → label cluster_id_label c == id ≡ true → any_short xs c ≡ true)
        containers
      × All (λ x. label_of x ≡ id) xs

  pub Names-fewer :
      (p q : Container → Bool) (j : Job)
      → ((c : Container) → q c ≡ true → p c ≡ true)
      → Names p j
      → Names q j
  Names-fewer p q (pending id) f h = tt
  Names-fewer p q (killing id xs r) f h =
      (All-map _ _ containers (λ c named e. named (f c e)) h.0, h.1)

  pub Names-stop :
      (p : Container → Bool) (id x : String) (xs ys : List String) (r r' : Result (Unit {0}))
      → Takes x xs ys
      → Names p (killing id xs r)
      → Names (λ c. p c && not (has_short x c)) (killing id ys r')
  Names-stop p id x xs ys r r' t h = (
    All-map _ _ containers
        (λ c named e l.
          let (here, stays) = both_true (p c) (not (has_short x c)) e in
          any_short-Takes c t (named here l) (of_not (has_short x c) stays))
        h.0,
    (All-Takes (λ y. label_of y ≡ id) t h.1).1,
  )
    where
      both_true : (a b : Bool) → a && b ≡ true → (a ≡ true) × (b ≡ true)
      both_true a b e = ground arith

      of_not : (a : Bool) → not a ≡ true → a ≡ false
      of_not a e = ground arith

  -- When all is done, what is left belongs to none of the clusters.
  pub none_left :
      (p : Container → Bool) (jobs : List Job)
      → All IsDone jobs
      → All (Names p) jobs
      → All (λ c. p c ≡ true → in_clusters (map job_id jobs) c ≡ false) containers
  none_left p [] d h = All_of (λ c e. refl) containers
  none_left p (pending id ∷ js) d h = absurd d.0
  none_left p (killing id xs r ∷ js) d h =
      let named =
        subst
          (λ l.
            All (λ c. p c ≡ true → label cluster_id_label c == id ≡ true → any_short l c ≡ true)
              containers)
          d.0.0 h.0.0 in
      All-map2 _ _ _ containers (λ c own others e. ground (arith, own e, others e)) named
        (none_left p js d.1 h.1)
