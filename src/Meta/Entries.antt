-- ===== src/Meta/Entries.antt =====
-- What holds of the owner of every entry: a predicate that the owners written satisfy is kept by
-- every write, whether it succeeds or not.
use cbdynclusterd.Prelude.{
  String, Bool-cases, false≢true, inl, inr, ◌⊎◌, ◌≡◌, ◌≢◌, refl, sym, ◌∙◌, subst, arith, eq_iff,
  ◌==◌,
}
use cbdynclusterd.Prelude.Result.{Result, ok, err, panic, ◌>>=◌, >>=-eq-ok}
use cbdynclusterd.Meta.{
  Storage, ClusterMeta, cluster_key, serialize_meta, deserialize_meta, settle, update,
  create_cluster_meta, update_cluster_meta, read_meta, update_txn, create_with, set_if_absent,
}
use cbdynclusterd.Meta.Laws.{IsStorage, cluster_key_injective, set-eq-ok, written, updated}

same_text : (a b : String) → (a ≡ b) ⊎ (a ≢ b)
same_text a b = elim (Bool-cases (a == b)) [
  | inl same ↦ inl ((eq_iff a b).0 same)
  | inr other ↦ inr (λ e. false≢true (sym other ∙ (eq_iff a b).1 e))
]

module _ (st : Storage) (P : String → Type 0) where
  -- The owner of every entry that can be read satisfies P.
  abbrev pub Owned : st.Db → Type 0
  Owned db = (id : String) (m : ClusterMeta) → read_meta st id db ≡ ok m → P m.owner

  module _ (laws : IsStorage st) where
    owner_of_stored :
        (meta m : ClusterMeta) (b : st.Bytes)
        → serialize_meta st meta ≡ ok b
        → deserialize_meta st b ≡ ok m
        → meta.owner ≡ m.owner
    unfolding serialize_meta deserialize_meta
    owner_of_stored meta m b encoded h =
        let h' = rw (laws.unmarshal-marshal _ b encoded) at h in ground arith

    after_write :
        (id : String) (meta : ClusterMeta) (b : st.Bytes) (db view db' : st.Db)
        → Owned db
        → P meta.owner
        → serialize_meta st meta ≡ ok b
        → st.set db (cluster_key id) b ≡ ok view
        → st.commit db view ≡ ok db'
        → Owned db'
    unfolding read_meta
    after_write id meta b db view db' owned company encoded set committed j m h =
        elim (same_text id j) [
          | inl same ↦
              let h' =
                rw
                  (
                    sym same,
                    laws.get-commit db view db' committed (cluster_key id),
                    laws.get-set_self db view (cluster_key id) b set,
                  )
                  at h in
              subst P (owner_of_stored meta m b encoded h') company
          | inr other ↦ owned j m (
              rw
                (
                  sym (
                      laws.get-set_ne db view (cluster_key id) (cluster_key j) b set
                        (λ e. other (cluster_key_injective id j e))),
                  sym (laws.get-commit db view db' committed (cluster_key j)),
                )
                h)
        ]

    settle-Owned :
        (db : st.Db) (r : Result st.Db)
        → Owned db
        → ((db' : st.Db) → r ≡ ok db' → Owned db')
        → Owned (settle st db r).1
    settle-Owned db (ok db') owned step = step db' refl
    settle-Owned db (err e) owned step = owned
    settle-Owned db panic owned step = owned

    pub update-Owned :
        (id : String) (f : ClusterMeta → Result ClusterMeta) (db : st.Db)
        → ((old new : ClusterMeta) → f old ≡ ok new → P new.owner)
        → Owned db
        → Owned (update_cluster_meta st id f db).1
    unfolding update_cluster_meta update_txn
    update-Owned id f db writes owned =
        settle-Owned db (update_txn st id f db >>= st.commit db) owned λ db' h.
          let (view, done, committed) = >>=-eq-ok (update_txn st id f db) (st.commit db) h in
          let (old, read, rest) = >>=-eq-ok (read_meta st id db) (updated st laws id f db) done in
          let (new, applied, rest') = >>=-eq-ok (f old) (written st laws id db) rest in
          let (b, encoded, set) =
            >>=-eq-ok (serialize_meta st new) (st.set db (cluster_key id)) rest' in
          after_write id new b db view db' owned (writes old new applied) encoded set committed

    create_with-Owned :
        (id : String) (meta : ClusterMeta) (r : Result st.Bytes) (db : st.Db)
        → serialize_meta st meta ≡ r
        → P meta.owner
        → Owned db
        → Owned (create_with st (cluster_key id) r db).1
    unfolding create_with update
    create_with-Owned id meta (err e) db encoded company owned = owned
    create_with-Owned id meta panic db encoded company owned = owned
    create_with-Owned id meta (ok b) db encoded company owned =
        settle-Owned db (attempt >>= st.commit db) owned λ db' h.
          let (view, s, committed) = >>=-eq-ok attempt (st.commit db) h in
          after_write id meta b db view db' owned company encoded
            (set-eq-ok st laws (cluster_key id) b db view (st.get db (cluster_key id)) s) committed
      where
        attempt : Result st.Db
        attempt = set_if_absent st (cluster_key id) b db (st.get db (cluster_key id))

    pub create-Owned :
        (id : String) (meta : ClusterMeta) (db : st.Db)
        → P meta.owner
        → Owned db
        → Owned (create_cluster_meta st id meta db).1
    unfolding create_cluster_meta
    create-Owned id meta db = create_with-Owned id meta (serialize_meta st meta) db refl
