-- ===== src/Clusters/Grouping.antt =====
-- The map from cluster IDs to containers that getAllClusters builds, against its description: the
-- entry of an ID holds the containers that carry it, in the order of the list.
use mathlib.Core.List.{append-nil, append_assoc}
use cbdynclusterd.Prelude.{
  String, Bool, false, ◌||◌, List, [], ◌∷◌, ◌++◌, ◌==◌, eq_iff, eq_refl, All, keep, ◌≡◌, ◌≢◌, refl,
  arith, Bool-cases, inl, inr, sym, ◌∙◌, subst,
}
use cbdynclusterd.Docker.{Container}
use cbdynclusterd.Clusters.{Group, label, cluster_id_label, add_container, group_containers}

-- The containers that carry the ID of a cluster.
abbrev pub containers_of : String → List Container → List Container
containers_of id = keep (λ c. label cluster_id_label c == id)

abbrev pub has_key : String → List Group → Bool
has_key id [] = false
has_key id (g ∷ gs) = (g.0 == id) || has_key id gs

abbrev pub DistinctKeys : List Group → Type 0
DistinctKeys [] = Unit
DistinctKeys (g ∷ gs) = (has_key g.0 gs ≡ false) × DistinctKeys gs

-- What the entries say of the containers seen so far.
abbrev pub Entries : List Container → List Group → Type 0
Entries seen = All (λ g. (g.1 ≡ containers_of g.0 seen) × (g.0 ≢ ""))

pub record Grouped (seen : List Container) (gs : List Group) : Type 0 where
  pub distinct : DistinctKeys gs
  pub entries : Entries seen gs
  pub complete : (id : String) → id ≢ "" → has_key id gs ≡ false → containers_of id seen ≡ []

keep-append {ℓ} :
    {A : Type ℓ} (p : A → Bool) (xs ys : List A) → keep p (xs ++ ys) ≡ keep p xs ++ keep p ys
keep-append p [] ys = refl
keep-append p (x ∷ xs) ys = ground (arith, keep-append p xs ys)

has_key-add :
    (j id : String) (c : Container) (gs : List Group)
    → has_key j (add_container id c gs) ≡ ((id == j) || has_key j gs)
unfolding add_container
has_key-add j id c [] = refl
has_key-add j id c ((i, cs) ∷ gs) = ground (arith, has_key-add j id c gs, eq_iff i id, eq_iff i j)

distinct-add :
    (id : String) (c : Container) (gs : List Group)
    → DistinctKeys gs
    → DistinctKeys (add_container id c gs)
unfolding add_container
distinct-add id c [] d = (refl, tt)
distinct-add id c ((i, cs) ∷ gs) d =
    ground (arith, distinct-add id c gs d.1, has_key-add i id c gs, eq_iff i id, eq_iff id i)

-- A container of another cluster does not show.
containers_of_other :
    (j : String) (c : Container) (seen : List Container)
    → label cluster_id_label c ≢ j
    → containers_of j (seen ++ c ∷ []) ≡ containers_of j seen
containers_of_other j c seen ne =
    keep-append _ seen (c ∷ [])
    ∙ ground (arith, eq_iff (label cluster_id_label c) j, append-nil (containers_of j seen))

containers_of_own :
    (c : Container) (seen : List Container)
    → containers_of (label cluster_id_label c) (seen ++ c ∷ [])
      ≡ containers_of (label cluster_id_label c) seen ++ c ∷ []
containers_of_own c seen = keep-append _ seen (c ∷ []) ∙ rw (eq_refl (label cluster_id_label c))

containers_of_hit :
    (j : String) (c : Container) (seen cs : List Container)
    → j ≡ label cluster_id_label c
    → cs ≡ containers_of j seen
    → cs ++ c ∷ [] ≡ containers_of j (seen ++ c ∷ [])
containers_of_hit j c seen cs p e = rw (e, p) (sym (containers_of_own c seen))

-- Entries with other keys stay as they were.
Entries-other :
    (c : Container) (seen : List Container) (gs : List Group)
    → has_key (label cluster_id_label c) gs ≡ false
    → Entries seen gs
    → Entries (seen ++ c ∷ []) gs
Entries-other c seen [] h e = tt
Entries-other c seen ((j, cs) ∷ gs) h e = (
  (e.0.0 ∙ sym (containers_of_other j c seen ne), e.0.1),
  Entries-other c seen gs (ground arith) e.1,
)
  where
    ne : label cluster_id_label c ≢ j
    ne p = ground (arith, eq_iff j (label cluster_id_label c))

Entries-add :
    (c : Container) (seen : List Container) (gs : List Group)
    → label cluster_id_label c ≢ ""
    → DistinctKeys gs
    → (has_key (label cluster_id_label c) gs ≡ false
        → containers_of (label cluster_id_label c) seen ≡ [])
    → Entries seen gs
    → Entries (seen ++ c ∷ []) (add_container (label cluster_id_label c) c gs)
unfolding add_container
Entries-add c seen [] ne d new e = ((sym (containers_of_own c seen ∙ rw (new refl)), ne), tt)
Entries-add c seen ((j, cs) ∷ gs) ne d new e = elim (Bool-cases (j == label cluster_id_label c)) [
  | inl hit ↦
      let p : j ≡ label cluster_id_label c = (eq_iff j _).0 hit in
      rw hit (
        (containers_of_hit j c seen cs p e.0.0, e.0.1),
        Entries-other c seen gs (subst (λ i. has_key i gs ≡ false) p d.0) e.1,
      )
  | inr miss ↦ rw miss (
    (
      e.0.0
          ∙ sym (
              containers_of_other j c seen
                (λ q. ground (arith, eq_iff j (label cluster_id_label c)))),
      e.0.1,
    ),
    Entries-add c seen gs ne d.1 (λ h. new (rw miss h)) e.1,
  )
]

-- One round of the loop keeps the description.
add-Grouped :
    (c : Container) (seen : List Container) (gs : List Group)
    → label cluster_id_label c ≢ ""
    → Grouped seen gs
    → Grouped (seen ++ c ∷ []) (add_container (label cluster_id_label c) c gs)
add-Grouped c seen gs ne g = record {
  distinct = distinct-add (label cluster_id_label c) c gs g.distinct;
  entries =
      Entries-add c seen gs ne g.distinct (g.complete (label cluster_id_label c) ne) g.entries;
  complete = λ id filled absent.
      let lacks : ((label cluster_id_label c == id) || has_key id gs) ≡ false =
        sym (has_key-add id (label cluster_id_label c) c gs) ∙ absent in
      containers_of_other id c seen (λ p. ground (arith, eq_iff (label cluster_id_label c) id))
      ∙ g.complete id filled (ground arith);
}

-- A container without the label is left out.
skip-Grouped :
    (c : Container) (seen : List Container) (gs : List Group)
    → label cluster_id_label c ≡ ""
    → Grouped seen gs
    → Grouped (seen ++ c ∷ []) gs
skip-Grouped c seen gs empty g = record {
  distinct = g.distinct;
  entries = entries_skipped gs g.entries;
  complete = λ id filled absent.
      containers_of_other id c seen (λ p. filled (sym p ∙ empty)) ∙ g.complete id filled absent;
}
  where
    entries_skipped : (gs : List Group) → Entries seen gs → Entries (seen ++ c ∷ []) gs
    entries_skipped [] e = tt
    entries_skipped ((j, cs) ∷ gs) e = (
      (e.0.0 ∙ sym (containers_of_other j c seen (λ p. e.0.1 (sym p ∙ empty))), e.0.1),
      entries_skipped gs e.1,
    )

group-Grouped :
    (seen cs : List Container) (gs : List Group)
    → Grouped seen gs
    → Grouped (seen ++ cs) (group_containers gs cs)
unfolding group_containers
group-Grouped seen [] gs g = rw (append-nil seen) g
group-Grouped seen (c ∷ cs) gs g =
    subst (λ l. Grouped l (group_containers gs (c ∷ cs))) (append_assoc seen (c ∷ []) cs)
      (elim (Bool-cases (label cluster_id_label c == "")) [
        | inl empty ↦
            rw empty (
              group-Grouped (seen ++ c ∷ []) cs gs
                (skip-Grouped c seen gs ((eq_iff _ _).0 empty) g))
        | inr filled ↦ rw filled (
            group-Grouped (seen ++ c ∷ []) cs (add_container (label cluster_id_label c) c gs)
              (add-Grouped c seen gs (λ p. ground (arith, eq_iff (label cluster_id_label c) "")) g))
      ])

-- The map built from all containers: its keys are distinct and not empty, the entry of a key holds
-- the containers with that label, in the order of the list, and an ID that is not empty and has no
-- entry is carried by no container.
pub group_containers-Grouped : (cs : List Container) → Grouped cs (group_containers [] cs)
group_containers-Grouped cs =
    group-Grouped [] cs []
      (record { distinct = tt; entries = tt; complete = λ id filled absent. refl })
