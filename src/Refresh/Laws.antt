-- ===== src/Refresh/Laws.antt =====
-- What a refresh leaves in the data base.
use cbdynclusterd.Prelude.{
  if◌then◌else◌, String, List, Option, none, some, ◌≡◌, ◌≢◌, refl, sym, ◌∙◌, ap, subst, arith,
  Bool-cases, inl, inr,
}
use cbdynclusterd.Prelude.Int.{pos, negsuc, ◌≤ℤ◌}
use cbdynclusterd.Prelude.Result.{Error, Result, ok, err, panic, ok-injective}
use cbdynclusterd.Prelude.Exec.{continue, continue-eq-ok}
use cbdynclusterd.Time.{Time, Duration, before, add, truncate_second, IsWritable}
use cbdynclusterd.Meta.{Storage, ClusterMeta, get_cluster_meta}
use cbdynclusterd.Meta.Laws.{IsStorage, stored, get-create, get-update, get_frame}
use cbdynclusterd.Context.{Context, context_user}
use cbdynclusterd.Docker.{Docker}
use cbdynclusterd.Clusters.{Group, Cluster, Daemon, get_cluster}
use cbdynclusterd.Refresh.{
  new_meta, prolong, create_or_update, on_db, write_refresh, refresh_cluster,
}

-- A refresh never moves an expiry that is stored in whole seconds to an earlier time.
truncate_second-mono : (t u : Time) → t ≤ℤ u → truncate_second t ≤ℤ truncate_second u
truncate_second-mono (pos m) (pos n) h = omega arith
truncate_second-mono (pos m) (negsuc n) h = absurd (omega arith)
truncate_second-mono (negsuc m) (pos n) h = omega arith
truncate_second-mono (negsuc m) (negsuc n) h = omega arith

prolong-le : (new old : ClusterMeta) → old.timeout ≤ℤ (prolong new old).timeout
unfolding prolong
prolong-le new old = ground arith

prolong-ge : (new old : ClusterMeta) → new.timeout ≤ℤ (prolong new old).timeout
unfolding prolong
prolong-ge new old = ground arith

prolong-IsWritable :
    (new old : ClusterMeta)
    → IsWritable new.timeout
    → IsWritable old.timeout
    → IsWritable (prolong new old).timeout
unfolding prolong
prolong-IsWritable new old w v = elim (Bool-cases (before old.timeout new.timeout)) [
  | inl later ↦ rw later w
  | inr not_later ↦ rw not_later v
]

-- The later of two times.
abbrev later : Time → Time → Time
later t u = if before t u then u else t

module _ (st : Storage) (laws : IsStorage st) where
  -- The entry after a refresh, by what is read before it.
  abbrev pub Refreshed :
      ClusterMeta → ClusterMeta × Option Error → ClusterMeta × Option Error → Type 0
  Refreshed new (old, none) after =
      after ≡ (stored (record { owner = new.owner; timeout = later old.timeout new.timeout }), none)
  Refreshed new (old, some e) after = after ≡ (stored new, none)

  write_refresh-Refreshed :
      (id : String) (new : ClusterMeta) (read : ClusterMeta × Option Error) (db db' : st.Db)
      → get_cluster_meta st id db ≡ read
      → IsWritable new.timeout
      → IsWritable read.0.timeout
      → create_or_update st id new read.1 db ≡ (ok tt, db')
      → Refreshed new read (get_cluster_meta st id db')
  unfolding prolong
  write_refresh-Refreshed id new (old, some e) db db' got w v h =
      get-create st laws id new db db' w h
  write_refresh-Refreshed id new (old, none) db db' got w v h =
      let (before, after, read, applied, now) =
        get-update st laws id (λ meta. ok (prolong new meta)) db db' writable h in
      let same : before ≡ old = ap (λ (r : ClusterMeta × Option Error). r.0) (sym read ∙ got) in
      now ∙ ap (λ meta. (stored meta, none)) (sym (ok-injective applied) ∙ ap (prolong new) same)
    where
      writable :
          (b a : ClusterMeta)
          → get_cluster_meta st id db ≡ (b, none)
          → ok (prolong new b) ≡ ok a
          → IsWritable a.timeout
      writable b a read applied =
          let same : b ≡ old = ap (λ (r : ClusterMeta × Option Error). r.0) (sym read ∙ got) in
          subst (λ (m : ClusterMeta). IsWritable m.timeout)
            (ap (prolong new) (sym same) ∙ ok-injective applied) (prolong-IsWritable new old w v)

  create_or_update_frame :
      (i j : String) (new : ClusterMeta) (db : st.Db) (e : Option Error)
      → i ≢ j
      → get_cluster_meta st j (create_or_update st i new e db).1 ≡ get_cluster_meta st j db
  create_or_update_frame i j new db (some e) ne =
      (get_frame st laws i j new (λ meta. ok (prolong new meta)) db ne).0
  create_or_update_frame i j new db none ne =
      (get_frame st laws i j new (λ meta. ok (prolong new meta)) db ne).1

  module _ (dk : Docker) (order : List Group → List Group) (ctx : Context) (now : Time) where
    refresh-eq-ok :
        (id : String) (d : Duration) (s : Daemon st dk)
        → (refresh_cluster st dk order ctx now id d s).0 ≡ ok tt
        → (write_refresh st id (new_meta ctx now d) s.db
            ≡ (ok tt, (refresh_cluster st dk order ctx now id d s).1.db))
          × ((refresh_cluster st dk order ctx now id d s).1.engine ≡ s.engine)
    unfolding refresh_cluster
    refresh-eq-ok id d s h =
        let (c, got, same) =
          continue-eq-ok (get_cluster st dk order ctx id s)
            (λ _. on_db st dk (write_refresh st id (new_meta ctx now d))) s tt h in
        let written = sym (ap (λ (r : Result (Unit {0}) × Daemon st dk). r.0) same) ∙ h in
        let db' = sym (ap (λ (r : Result (Unit {0}) × Daemon st dk). r.1.db) same) in
        (λ i. (written i, db' i), ap (λ (r : Result (Unit {0}) × Daemon st dk). r.1.engine) same)

    pub refresh_cluster-Refreshed :
        (id : String) (d : Duration) (s : Daemon st dk)
        → IsWritable (add now d)
        → IsWritable (get_cluster_meta st id s.db).0.timeout
        → (refresh_cluster st dk order ctx now id d s).0 ≡ ok tt
        → Refreshed
            (new_meta ctx now d)
            (get_cluster_meta st id s.db)
            (get_cluster_meta st id (refresh_cluster st dk order ctx now id d s).1.db)
          × ((refresh_cluster st dk order ctx now id d s).1.engine ≡ s.engine)
    unfolding new_meta write_refresh
    refresh_cluster-Refreshed id d s w v h =
        let (written, engine) = refresh-eq-ok id d s h in
        (
          write_refresh-Refreshed id (new_meta ctx now d) (get_cluster_meta st id s.db) s.db _ refl
              w v written,
          engine,
        )

    -- A refresh that succeeds never shortens a cluster's life: what was read of the expiry,
    -- rounded down to the second, is at most what is stored, and so is `now` plus the given time;
    -- and the caller is the owner. Supposes IsStorage, that reading the entry gave no error, and
    -- that the two expiries have years from 1 to 9999.
    pub refresh_extends :
        (id : String) (d : Duration) (s : Daemon st dk) (old : ClusterMeta)
        → IsWritable (add now d)
        → IsWritable old.timeout
        → get_cluster_meta st id s.db ≡ (old, none)
        → (refresh_cluster st dk order ctx now id d s).0 ≡ ok tt
        → let after =
            (get_cluster_meta st id (refresh_cluster st dk order ctx now id d s).1.db).0 in
          (truncate_second old.timeout ≤ℤ after.timeout)
          × (truncate_second (add now d) ≤ℤ after.timeout)
          × (after.owner ≡ context_user ctx)
    unfolding new_meta prolong
    refresh_extends id d s old w v got h =
        let v' = subst (λ (r : ClusterMeta × Option Error). IsWritable r.0.timeout) (sym got) v in
        let left = get_cluster_meta st id (refresh_cluster st dk order ctx now id d s).1.db in
        let done =
          subst (λ r. Refreshed (new_meta ctx now d) r left) got
            (refresh_cluster-Refreshed id d s w v' h).0 in
        subst
          (λ (r : ClusterMeta × Option Error).
            (truncate_second old.timeout ≤ℤ r.0.timeout)
            × (truncate_second (add now d) ≤ℤ r.0.timeout)
            × (r.0.owner ≡ context_user ctx))
          (sym done)
          (
            truncate_second-mono _ _ (prolong-le (new_meta ctx now d) old),
            truncate_second-mono _ _ (prolong-ge (new_meta ctx now d) old),
            refl,
          )

    frame_of :
        (i j : String) (d : Duration) (s : Daemon st dk) (r : Result Cluster)
        → i ≢ j
        → get_cluster_meta st j
            (continue r (λ _. on_db st dk (write_refresh st i (new_meta ctx now d))) s).1.db
          ≡ get_cluster_meta st j s.db
    unfolding write_refresh
    frame_of i j d s (ok c) ne = create_or_update_frame i j (new_meta ctx now d) s.db _ ne
    frame_of i j d s (err e) ne = refl
    frame_of i j d s panic ne = refl

    -- The entries of other clusters stay, whether the refresh succeeds or not. Supposes IsStorage.
    refresh_frame :
        (i j : String) (d : Duration) (s : Daemon st dk)
        → i ≢ j
        → get_cluster_meta st j (refresh_cluster st dk order ctx now i d s).1.db
          ≡ get_cluster_meta st j s.db
    unfolding refresh_cluster
    refresh_frame i j d s ne = frame_of i j d s (get_cluster st dk order ctx i s) ne
