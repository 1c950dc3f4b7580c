-- ===== src/Clusters/Order.antt =====
-- The listing of getAllClusters as an unordered collection. Go ranges over clusterMap in an order
-- that the language leaves open, so the abstract view of a listing forgets the order.
use mathlib.Core.Quot
use mathlib.Core.Quot.{Quot, Quot-set}
use mathlib.Core.List.Permᴰ
use cbdynclusterd.Prelude.{
  Bool, true, false, Option, none, some, List, [], ◌∷◌, Permᴰ, Reorders, ◌≡◌, refl, sym, ap, ◌∙◌,
}
use cbdynclusterd.Prelude.Result.{Result, ok, err, panic, ◌>>=◌}
use cbdynclusterd.Meta.{Storage}
use cbdynclusterd.Context.{Context}
use cbdynclusterd.Docker.{Docker, Container}
use cbdynclusterd.Clusters.{
  Cluster, Group, Daemon, visible, add_if, cluster_of, collect, get_all_clusters, group_containers,
}

-- Clusters, each as often as it is listed, in no order.
abbrev pub Bag : Type 0
Bag = Quot (Permᴰ {A = Cluster})

-- What a listing says of the daemon, order and reason of a failure left aside.
abbrev pub to_bag : Result (List Cluster) → Option Bag
to_bag (ok clusters) = some (Quot.mk clusters)
to_bag (err e) = none
to_bag panic = none

add_if-perm :
    (shown : Bool) (c : Cluster) (xs ys : List Cluster)
    → Permᴰ xs ys
    → Permᴰ (add_if shown c xs) (add_if shown c ys)
add_if-perm true c xs ys h = Permᴰ.cons refl h
add_if-perm false c xs ys h = h

-- A cluster that the caller may see is put to the others.
put : Bool → Cluster → Bag → Bag
put shown c =
    Quot.lift Quot-set (λ xs. Quot.mk (add_if shown c xs))
      (λ xs ys h. Quot.sound (add_if-perm shown c xs ys h))

add_if_comm :
    (b b' : Bool) (c c' : Cluster) (xs : List Cluster)
    → Permᴰ (add_if b c (add_if b' c' xs)) (add_if b' c' (add_if b c xs))
add_if_comm true true c c' xs = Permᴰ.swap refl refl
add_if_comm true false c c' xs = Permᴰ.refl _
add_if_comm false true c c' xs = Permᴰ.refl _
add_if_comm false false c c' xs = Permᴰ.refl _

put_comm :
    (b b' : Bool) (c c' : Cluster) (bag : Bag) → put b c (put b' c' bag) ≡ put b' c' (put b c bag)
unfolding put
put_comm b b' c c' = Quot.ind (λ _. Quot-set _ _) (λ xs. Quot.sound (add_if_comm b b' c c' xs))

module _ (st : Storage) (ctx : Context) (db : st.Db) where
  -- One round of the loop over clusterMap, on collections without an order.
  step : Result Cluster → Option Bag → Option Bag
  step (ok c) (some bag) = some (put (visible ctx c.creator) c bag)
  step (ok c) none = none
  step (err e) bag = none
  step panic bag = none

  step_comm :
      (r r' : Result Cluster) (bag : Option Bag) → step r (step r' bag) ≡ step r' (step r bag)
  unfolding step
  step_comm (ok c) (ok c') (some bag) = ap some (put_comm _ _ c c' bag)
  step_comm (ok c) (ok c') none = refl
  step_comm (ok c) (err e) bag = refl
  step_comm (ok c) panic bag = refl
  step_comm (err e) (ok c') bag = refl
  step_comm (err e) (err e') bag = refl
  step_comm (err e) panic bag = refl
  step_comm panic (ok c') bag = refl
  step_comm panic (err e') bag = refl
  step_comm panic panic bag = refl

  to_bag-round :
      (r : Result Cluster) (rest : Result (List Cluster))
      → to_bag (r >>= λ c. rest >>= λ cs. ok (add_if (visible ctx c.creator) c cs))
        ≡ step r (to_bag rest)
  unfolding step put
  to_bag-round (ok c) (ok cs) = refl
  to_bag-round (ok c) (err e) = refl
  to_bag-round (ok c) panic = refl
  to_bag-round (err e) rest = refl
  to_bag-round panic rest = refl

  to_bag-collect :
      (g : Group) (gs : List Group)
      → to_bag (collect st ctx db (g ∷ gs))
        ≡ step (cluster_of st db g) (to_bag (collect st ctx db gs))
  unfolding collect
  to_bag-collect g gs = to_bag-round (cluster_of st db g) (collect st ctx db gs)

  to_bag-twice :
      (g h : Group) (gs : List Group)
      → to_bag (collect st ctx db (g ∷ h ∷ gs))
        ≡ step (cluster_of st db g) (step (cluster_of st db h) (to_bag (collect st ctx db gs)))
  to_bag-twice g h gs =
      to_bag-collect g (h ∷ gs) ∙ ap (step (cluster_of st db g)) (to_bag-collect h gs)

  collect-perm :
      {gs hs : List Group}
      → Permᴰ gs hs
      → to_bag (collect st ctx db gs) ≡ to_bag (collect st ctx db hs)
  collect-perm Permᴰ.nil = refl
  collect-perm (Permᴰ.cons {a} {b} {l₁} {l₂} e p) = rw e (
      to_bag-collect b l₁
      ∙ (ap (step (cluster_of st db b)) (collect-perm p) ∙ sym (to_bag-collect b l₂)))
  collect-perm (Permᴰ.swap {a} {b} {a'} {b'} {l} e f) =
      rw (sym e, sym f)
        (to_bag-twice a b l
          ∙ (step_comm (cluster_of st db a) (cluster_of st db b) _ ∙ sym (to_bag-twice b a l)))
  collect-perm (Permᴰ.trans p q) = collect-perm p ∙ collect-perm q

module _ (st : Storage) (dk : Docker) where
  -- In any two orders in which Go may range over clusterMap, the listing fails in both or gives the
  -- same clusters, each as often, in both: without their order the two are equal. Supposes that
  -- both orders are permutations.
  pub get_all_clusters-to_bag :
      (order order' : List Group → List Group) (ctx : Context) (s : Daemon st dk)
      → Reorders order
      → Reorders order'
      → to_bag (get_all_clusters st dk order ctx s) ≡ to_bag (get_all_clusters st dk order' ctx s)
  unfolding get_all_clusters
  get_all_clusters-to_bag order order' ctx s one other = listed (dk.container_list s.engine)
    where
      listed :
          (r : Result (List Container))
          → to_bag (r >>= λ cs. collect st ctx s.db (order (group_containers [] cs)))
            ≡ to_bag (r >>= λ cs. collect st ctx s.db (order' (group_containers [] cs)))
      listed (ok cs) = sym (collect-perm st ctx s.db (one _)) ∙ collect-perm st ctx s.db (other _)
      listed (err e) = refl
      listed panic = refl
