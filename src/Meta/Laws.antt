-- ===== src/Meta/Laws.antt =====
-- What the store promises its callers, for a data base and encodings that keep what is written.
use text.Mathlib.TextLemmas.{append_cancel_left}
use cbdynclusterd.Prelude.{String, none, ◌≡◌, ◌≢◌, refl, ap, arith}
use cbdynclusterd.Prelude.Result.{Result, ok, err, panic, ◌>>=◌, >>=-eq-ok}
use cbdynclusterd.Time.{Time, truncate_second, IsWritable}
use cbdynclusterd.Meta.{
  Storage, ClusterMetaJson, ClusterMeta, zero_cluster_meta, cluster_key, serialize_meta,
  deserialize_meta, settle, update, set_if_absent, create_with, create_cluster_meta, read_meta,
  update_txn, update_cluster_meta, get_cluster_meta, recovered,
}

-- The documented behaviour of badger's transactions, encoding/json and time.RFC3339.
pub record IsStorage (st : Storage) : Type 0 where
  pub get-set_self :
      (db view : st.Db) (k : String) (v : st.Bytes) → st.set db k v ≡ ok view → st.get view k ≡ ok v
  pub get-set_ne :
      (db view : st.Db) (k j : String) (v : st.Bytes)
      → st.set db k v ≡ ok view
      → k ≢ j
      → st.get view j ≡ st.get db j
  pub get-commit :
      (db view db' : st.Db)
      → st.commit db view ≡ ok db'
      → (k : String) → st.get db' k ≡ st.get view k
  pub unmarshal-marshal :
      (j : ClusterMetaJson) (b : st.Bytes) → st.marshal j ≡ ok b → st.unmarshal b ≡ ok j
  pub parse-format :
      (t : Time) → IsWritable t → st.parse_time (st.format_time t) ≡ ok (truncate_second t)

-- What the store keeps of an entry.
abbrev pub stored : ClusterMeta → ClusterMeta
stored meta = record meta { timeout = truncate_second meta.timeout }

pub cluster_key_injective : (i j : String) → cluster_key i ≡ cluster_key j → i ≡ j
unfolding cluster_key
cluster_key_injective i j e = append_cancel_left "cluster-" i j e

module _ (st : Storage) (laws : IsStorage st) where
  deserialize-serialize :
      (meta : ClusterMeta) (b : st.Bytes)
      → IsWritable meta.timeout
      → serialize_meta st meta ≡ ok b
      → deserialize_meta st b ≡ ok (stored meta)
  unfolding serialize_meta deserialize_meta
  deserialize-serialize meta b w h =
      rw (laws.unmarshal-marshal _ b h, laws.parse-format meta.timeout w)

  -- A transaction that succeeds has committed its view.
  pub update-eq-ok :
      (txn : st.Db → Result st.Db) (db db' : st.Db)
      → update st txn db ≡ (ok tt, db')
      → (view : st.Db) × (txn db ≡ ok view) × (st.commit db view ≡ ok db')
  unfolding update
  update-eq-ok txn db db' h = ground arith

  -- One that does not has changed nothing.
  update_failed :
      (txn : st.Db → Result st.Db) (db : st.Db)
      → (update st txn db).0 ≢ ok tt
      → (update st txn db).1 ≡ db
  unfolding update
  update_failed txn db h = ground arith

  -- What a transaction that ends in `txn.Set(clusterKey, metaBytes)` has left.
  get_after_set :
      (cluster_id : String) (meta : ClusterMeta) (b : st.Bytes) (txn view db db' : st.Db)
      → IsWritable meta.timeout
      → serialize_meta st meta ≡ ok b
      → st.set txn (cluster_key cluster_id) b ≡ ok view
      → st.commit db view ≡ ok db'
      → get_cluster_meta st cluster_id db' ≡ (stored meta, none)
  unfolding get_cluster_meta read_meta
  get_after_set cluster_id meta b txn view db db' w encoded set committed = rw (
    laws.get-commit db view db' committed (cluster_key cluster_id),
    laws.get-set_self txn view (cluster_key cluster_id) b set,
    deserialize-serialize meta b w encoded,
  )

  pub create-eq-ok :
      (cluster_id : String) (meta : ClusterMeta) (db db' : st.Db)
      → create_cluster_meta st cluster_id meta db ≡ (ok tt, db')
      → (b : st.Bytes) × (view : st.Db) × (serialize_meta st meta ≡ ok b)
        × (st.set db (cluster_key cluster_id) b ≡ ok view)
        × (st.commit db view ≡ ok db')
  unfolding create_cluster_meta
  create-eq-ok cluster_id meta db db' h = ground arith

  -- An entry that was created is read back with the owner unchanged and the expiry rounded down to
  -- the second, and with no error. Supposes IsStorage, and an expiry with a year from 1 to 9999.
  pub get-create :
      (cluster_id : String) (meta : ClusterMeta) (db db' : st.Db)
      → IsWritable meta.timeout
      → create_cluster_meta st cluster_id meta db ≡ (ok tt, db')
      → get_cluster_meta st cluster_id db' ≡ (stored meta, none)
  get-create cluster_id meta db db' w h =
      let (b, view, encoded, set, committed) = create-eq-ok cluster_id meta db db' h in
      get_after_set cluster_id meta b db view db db' w encoded set committed

  -- An entry that is there already is not overwritten: if reading its key gives a value, the call
  -- fails and changes nothing.
  create_twice :
      (cluster_id : String) (meta : ClusterMeta) (db : st.Db) (old : st.Bytes)
      → st.get db (cluster_key cluster_id) ≡ ok old
      → ((create_cluster_meta st cluster_id meta db).0 ≢ ok tt)
        × ((create_cluster_meta st cluster_id meta db).1 ≡ db)
  unfolding create_cluster_meta
  create_twice cluster_id meta db old h = ground arith

  -- The later steps of the transaction of an update.
  abbrev pub written : String → st.Db → ClusterMeta → Result st.Db
  written cluster_id db meta = serialize_meta st meta >>= st.set db (cluster_key cluster_id)

  abbrev pub updated :
      String → (ClusterMeta → Result ClusterMeta) → st.Db → ClusterMeta → Result st.Db
  updated cluster_id f db old = f old >>= written cluster_id db

  -- An update that succeeds read an entry, applied the function to it with success, and what is
  -- read afterwards is the function's result, rounded down to the second. Supposes IsStorage, and
  -- that the function returns an expiry with a year from 1 to 9999.
  pub get-update :
      (cluster_id : String) (f : ClusterMeta → Result ClusterMeta) (db db' : st.Db)
      → ((old new : ClusterMeta)
          → get_cluster_meta st cluster_id db ≡ (old, none)
          → f old ≡ ok new
          → IsWritable new.timeout)
      → update_cluster_meta st cluster_id f db ≡ (ok tt, db')
      → (old new : ClusterMeta) × (get_cluster_meta st cluster_id db ≡ (old, none))
        × (f old ≡ ok new)
        × (get_cluster_meta st cluster_id db' ≡ (stored new, none))
  unfolding update_cluster_meta update_txn get_cluster_meta
  get-update cluster_id f db db' writable h =
      let (view, done, committed) = update-eq-ok (update_txn st cluster_id f) db db' h in
      let (old, read, rest) =
        >>=-eq-ok (read_meta st cluster_id db) (updated cluster_id f db) done in
      let (new, applied, rest') = >>=-eq-ok (f old) (written cluster_id db) rest in
      let (b, encoded, set) =
        >>=-eq-ok (serialize_meta st new) (st.set db (cluster_key cluster_id)) rest' in
      (
        old,
        new,
        ap (recovered st) read,
        applied,
        get_after_set cluster_id new b db view db db'
            (writable old new (ap (recovered st) read) applied) encoded set committed,
      )

  -- A write that fails, on whatever path, leaves the data base as it was.
  failed_write :
      (cluster_id : String) (meta : ClusterMeta) (f : ClusterMeta → Result ClusterMeta) (db : st.Db)
      → ((create_cluster_meta st cluster_id meta db).0 ≢ ok tt
          → (create_cluster_meta st cluster_id meta db).1 ≡ db)
        × ((update_cluster_meta st cluster_id f db).0 ≢ ok tt
            → (update_cluster_meta st cluster_id f db).1 ≡ db)
  unfolding create_cluster_meta update_cluster_meta
  failed_write cluster_id meta f db =
      (λ h. ground arith, λ h. update_failed (update_txn st cluster_id f) db h)

  get_other :
      (i j : String) (b : st.Bytes) (txn view db' : st.Db)
      → i ≢ j
      → st.set txn (cluster_key i) b ≡ ok view
      → st.commit txn view ≡ ok db'
      → get_cluster_meta st j db' ≡ get_cluster_meta st j txn
  unfolding get_cluster_meta read_meta
  get_other i j b txn view db' ne set committed = rw (
    laws.get-commit txn view db' committed (cluster_key j),
    laws.get-set_ne txn view (cluster_key i) (cluster_key j) b set
        (λ e. ne (cluster_key_injective i j e)),
  )

  settle_frame :
      (j : String) (db : st.Db) (r : Result st.Db)
      → ((db' : st.Db) → r ≡ ok db' → get_cluster_meta st j db' ≡ get_cluster_meta st j db)
      → get_cluster_meta st j (settle st db r).1 ≡ get_cluster_meta st j db
  settle_frame j db (ok db') h = h db' refl
  settle_frame j db (err e) h = refl
  settle_frame j db panic h = refl

  pub set-eq-ok :
      (key : String) (b : st.Bytes) (db view : st.Db) (r : Result st.Bytes)
      → set_if_absent st key b db r ≡ ok view
      → st.set db key b ≡ ok view
  set-eq-ok key b db view (ok _) h = cc
  set-eq-ok key b db view (err e) h = h
  set-eq-ok key b db view panic h = cc

  create_frame :
      (i j : String) (r : Result st.Bytes) (db : st.Db)
      → i ≢ j
      → get_cluster_meta st j (create_with st (cluster_key i) r db).1 ≡ get_cluster_meta st j db
  unfolding create_with
  create_frame i j (ok b) db ne = settle_frame j db (attempt >>= st.commit db) λ db' h.
      let (view, s, committed) = >>=-eq-ok attempt (st.commit db) h in
      get_other i j b db view db' ne
        (set-eq-ok (cluster_key i) b db view (st.get db (cluster_key i)) s) committed
    where
      attempt : Result st.Db
      attempt = set_if_absent st (cluster_key i) b db (st.get db (cluster_key i))
  create_frame i j (err e) db ne = refl
  create_frame i j panic db ne = refl

  update_frame :
      (i j : String) (f : ClusterMeta → Result ClusterMeta) (db : st.Db)
      → i ≢ j
      → get_cluster_meta st j (update_cluster_meta st i f db).1 ≡ get_cluster_meta st j db
  unfolding update_cluster_meta update_txn
  update_frame i j f db ne = settle_frame j db (update_txn st i f db >>= st.commit db) λ db' h.
      let (view, done, committed) = >>=-eq-ok (update_txn st i f db) (st.commit db) h in
      let (old, read, rest) = >>=-eq-ok (read_meta st i db) (updated i f db) done in
      let (new, applied, rest') = >>=-eq-ok (f old) (written i db) rest in
      let (b, encoded, set) = >>=-eq-ok (serialize_meta st new) (st.set db (cluster_key i)) rest' in
      get_other i j b db view db' ne set committed

  -- Writing the entry of one cluster changes no other, whether the write succeeds or not. Supposes
  -- IsStorage.
  pub get_frame :
      (i j : String) (meta : ClusterMeta) (f : ClusterMeta → Result ClusterMeta) (db : st.Db)
      → i ≢ j
      → (get_cluster_meta st j (create_cluster_meta st i meta db).1 ≡ get_cluster_meta st j db)
        × (get_cluster_meta st j (update_cluster_meta st i f db).1 ≡ get_cluster_meta st j db)
  unfolding create_cluster_meta
  get_frame i j meta f db ne =
      (create_frame i j (serialize_meta st meta) db ne, update_frame i j f db ne)

module _ (st : Storage) where
  -- A panic of badger is swallowed: the caller gets the zero time and no error, whatever is stored.
  pub get_of_panic :
      (cluster_id : String) (db : st.Db)
      → st.get db (cluster_key cluster_id) ≡ panic
      → get_cluster_meta st cluster_id db ≡ (zero_cluster_meta, none)
  unfolding get_cluster_meta read_meta
  get_of_panic cluster_id db h = rw h
