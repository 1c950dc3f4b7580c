-- ===== src/Meta.antt =====
-- daemon/metadata.go: the store of who owns a cluster and when it expires. badger (the data base),
-- and the byte and text encodings of Go's library, are a parameter, `Storage`.

pub mod Laws
pub mod Entries
use cbdynclusterd.Prelude.{String, Option, none, some, ◌≡◌}
use cbdynclusterd.Prelude.Int.{pos}
use cbdynclusterd.Prelude.Result.{Error, failure, Result, ok, err, panic, ◌>>=◌}
use cbdynclusterd.Prelude.Exec.{Exec}
use cbdynclusterd.Time.{Time, default_cluster_timeout}
use Prim.Native.String.{◌++◌}

pub record ClusterMetaJson : Type 0 where
  pub owner : String
  pub timeout : String

pub record ClusterMeta : Type 0 where
  pub owner : String
  pub timeout : Time

abbrev pub default_cluster_meta : ClusterMeta
default_cluster_meta = record { owner = "unknown"; timeout = default_cluster_timeout }

-- ClusterMeta{}
abbrev pub zero_cluster_meta : ClusterMeta
zero_cluster_meta = record { owner = ""; timeout = pos 0 }

-- badger's transactions, encoding/json at ClusterMetaJSON, and time.RFC3339. A `Db` is what a
-- transaction reads: `get` is txn.Get with item.ValueCopy, a missing key being an error; `set` gives
-- the view after txn.Set; `commit old view` is the state after the commit, or the commit's error.
pub record Storage : Type 1 where
  pub Bytes : Type 0
  pub Db : Type 0
  pub marshal : ClusterMetaJson → Result Bytes
  pub unmarshal : Bytes → Result ClusterMetaJson
  pub format_time : Time → String
  pub parse_time : String → Result Time
  pub get : Db → String → Result Bytes
  pub set : Db → String → Bytes → Result Db
  pub commit : Db → Db → Result Db

-- []byte(fmt.Sprintf("cluster-%s", clusterID))
unfoldable pub cluster_key : String → String
cluster_key cluster_id = "cluster-" ++ cluster_id

-- if err != nil { parsedTimeout = DEFAULT_CLUSTER_TIMEOUT }
abbrev timeout_or_default : Result Time → Result Time
timeout_or_default (ok t) = ok t
timeout_or_default (err e) = ok default_cluster_timeout
timeout_or_default panic = panic

module _ (st : Storage) where
  unfoldable pub serialize_meta : ClusterMeta → Result st.Bytes
  serialize_meta meta =
      st.marshal (record { owner = meta.owner; timeout = st.format_time meta.timeout })

  unfoldable pub deserialize_meta : st.Bytes → Result ClusterMeta
  deserialize_meta bytes = do
    meta_json ← st.unmarshal bytes
    parsed_timeout ← timeout_or_default (st.parse_time meta_json.timeout)
    ok (record { owner = meta_json.owner; timeout = parsed_timeout })

  abbrev settle : st.Db → Result st.Db → Result (Unit {0}) × st.Db
  settle db (ok db') = (ok tt, db')
  settle db (err e) = (err e, db)
  settle db panic = (panic, db)

  -- db.Update(txn): the transaction's writes are committed if it returns no error.
  unfoldable pub update : (st.Db → Result st.Db) → Exec st.Db (Unit {0})
  update txn db = settle db (txn db >>= st.commit db)

  -- What CreateClusterMeta does after its txn.Get.
  abbrev set_if_absent : String → st.Bytes → st.Db → Result st.Bytes → Result st.Db
  set_if_absent key bytes db (ok _) = err (failure "cluster meta-data already existed")
  set_if_absent key bytes db (err _) = st.set db key bytes
  set_if_absent key bytes db panic = panic

  create_with : String → Result st.Bytes → Exec st.Db (Unit {0})
  unfolding update
  create_with key (ok bytes) db = update (λ txn. set_if_absent key bytes txn (st.get txn key)) db
  create_with key (err e) db = (err e, db)
  create_with key panic db = (panic, db)

  unfoldable pub create_cluster_meta : String → ClusterMeta → Exec st.Db (Unit {0})
  unfolding create_with
  create_cluster_meta cluster_id meta = create_with (cluster_key cluster_id) (serialize_meta meta)

  -- The body of db.Update and of db.View up to the decoded value.
  unfoldable pub read_meta : String → st.Db → Result ClusterMeta
  read_meta cluster_id db = st.get db (cluster_key cluster_id) >>= deserialize_meta

  update_txn : String → (ClusterMeta → Result ClusterMeta) → st.Db → Result st.Db
  update_txn cluster_id update_func txn = do
    meta ← read_meta cluster_id txn
    meta' ← update_func meta
    meta_bytes ← serialize_meta meta'
    st.set txn (cluster_key cluster_id) meta_bytes

  unfoldable pub update_cluster_meta :
      String → (ClusterMeta → Result ClusterMeta) → Exec st.Db (Unit {0})
  unfolding update update_txn
  update_cluster_meta cluster_id update_func = update (update_txn cluster_id update_func)

  -- The deferred recover swallows a panic; the results have no names, so the caller then gets the
  -- zero ClusterMeta and a nil error.
  abbrev recovered : Result ClusterMeta → ClusterMeta × Option Error
  recovered (ok meta) = (meta, none)
  recovered (err e) = (default_cluster_meta, some e)
  recovered panic = (zero_cluster_meta, none)

  -- The value, and the error if there is one: callers use the value beside an error too.
  unfoldable pub get_cluster_meta : String → st.Db → ClusterMeta × Option Error
  get_cluster_meta cluster_id db = recovered (read_meta cluster_id db)
