-- ===== src/Workload.antt =====
-- helper/helper.go: the documents that LoadData writes, the operations on them, and the workloads,
-- which go on until StopWorkload is set. The Couchbase client (gocb, cbft) is a parameter, `Client`.
-- Log lines are left out. A number of items is not negative.
pub mod Laws
use Prim.Native.String.{◌++◌}
use cbdynclusterd.Prelude.{
  ℕ, zero, suc, ◌+◌, ◌%◌, String, Bool, true, false, not, ◌&&◌, ◌||◌, Option, none, some, List, [],
  ◌∷◌, if◌then◌else◌, ◌==◌, eqb, ltb,
}
use cbdynclusterd.Prelude.Text.{show_nat, join}
use cbdynclusterd.Prelude.Result.{Error, failure, Result, ok, err, panic}
use cbdynclusterd.Prelude.Exec.{Exec, pure, continue, ◌>>=◌, ◌>>◌}
use cbdynclusterd.Prelude.Run.{Run, after_run, after_result, exec, returning}

pub record SubFields : Type 0 where
  pub sub_value : String
  pub recurring_field : String

pub record KvData : Type 0 where
  pub prop_value : String
  pub sub_fields : SubFields

-- What SearchResults has: `shown_hits` is how fmt prints the hits with %d.
pub record SearchReply : Type 0 where
  pub errors : List String
  pub hits : ℕ
  pub shown_hits : String

pub record Client : Type 1 where
  pub World : Type 0
  pub Cluster : Type 0
  pub Bucket : Type 0
  -- the variable StopWorkload, which other goroutines set
  pub stop_workload : World → Bool
  pub connect : String → Exec World Cluster
  pub authenticate : Cluster → String → String → Exec World (Unit {0})
  pub open_bucket : Cluster → String → Exec World Bucket
  pub bucket_name : Bucket → String
  -- the document as far as it was decoded, and the error
  pub get_data : Bucket → String → World → (KvData × Option Error) × World
  -- the same into a string, and into a value of any type: only the error is used
  pub get_string : Bucket → String → Exec World (Unit {0})
  pub get_any : Bucket → String → Exec World (Unit {0})
  pub upsert_data : Bucket → String → KvData → Exec World (Unit {0})
  pub remove_key : Bucket → String → Exec World (Unit {0})
  -- err == gocb.ErrKeyNotFound
  pub is_key_not_found : Error → Bool
  -- of a statement: whether there are rows
  pub n1ql_query : Bucket → String → Exec World Bool
  -- of an index and a text to match
  pub search_query : Bucket → String → String → Exec World SearchReply

-- The document for a key.
unfoldable pub sample_data : String → KvData
sample_data key = record {
  prop_value = "SampleValue" ++ key;
  sub_fields = record {
    sub_value = "SampleSubvalue" ++ key;
    recurring_field = "RecurringSubvalue";
  };
}

unfoldable pub is_sample : String → KvData → Bool
is_sample key kv_data =
    (kv_data.prop_value == "SampleValue" ++ key)
    && (kv_data.sub_fields.sub_value == "SampleSubvalue" ++ key)
    && (kv_data.sub_fields.recurring_field == "RecurringSubvalue")

abbrev pub error_or_nil : Option Error → Result (Unit {0})
error_or_nil none = ok tt
error_or_nil (some e) = err e

abbrev unexpected : Result (Unit {0})
unexpected = err (failure "Not expected data from Get operation")

-- if _, err := m; err != nil { ... } where only the error of `m` is used
abbrev pub and_then : {S A : Type 0} → Exec S A → (Result A → Exec S (Unit {0})) → Exec S (Unit {0})
and_then m next s = let (r, s') = m s in next r s'

module _ (c : Client) where
  unfoldable pub get_item : c.Bucket → ℕ → Exec c.World (Unit {0})
  get_item bucket i s =
      let ((kv_data, e), s') = c.get_data bucket (show_nat i) s in
      (if is_sample (show_nat i) kv_data then error_or_nil e else unexpected, s')

  unfoldable pub upsert_item : c.Bucket → ℕ → Exec c.World (Unit {0})
  upsert_item bucket i = c.upsert_data bucket (show_nat i) (sample_data (show_nat i))

  -- for i := 0; i < numItems; i++ { ... }, with the items that are left and the next one
  unfoldable pub upsert_all : c.Bucket → ℕ → ℕ → Exec c.World (Unit {0})
  upsert_all bucket zero i = pure tt
  upsert_all bucket (suc left) i = do upsert_item bucket i; upsert_all bucket left (suc i)

  -- The error of Authenticate is not read.
  abbrev authenticated : c.Cluster → String → String → Exec c.World (Unit {0})
  authenticated cluster username password s =
      (ok tt, (c.authenticate cluster username password s).1)

  unfoldable pub load_data : String → String → String → String → ℕ → Exec c.World c.Bucket
  load_data bucket_name ep username password num_items = do
    cluster ← c.connect ("couchbase://" ++ ep)
    authenticated cluster username password
    bucket ← c.open_bucket cluster bucket_name
    upsert_all bucket num_items 0
    pure bucket

  abbrev removed : String → Result (Unit {0}) → Result (Unit {0})
  removed key (ok u) = err (failure ("key " ++ (key ++ " is expected to be removed but exists!")))
  removed key (err e) = if c.is_key_not_found e then ok tt else err e
  removed key panic = panic

  unfoldable pub remove_item : c.Bucket → ℕ → Exec c.World (Unit {0})
  remove_item bucket i = do
    c.remove_key bucket (show_nat i)
    and_then (c.get_string bucket (show_nat i)) (λ r s. (removed (show_nat i) r, s))

  abbrev removed_if_there : c.Bucket → String → Result (Unit {0}) → Exec c.World (Unit {0})
  removed_if_there bucket key (ok u) s = c.remove_key bucket key s
  removed_if_there bucket key (err e) s = (if c.is_key_not_found e then ok tt else err e, s)
  removed_if_there bucket key panic s = (panic, s)

  unfoldable pub remove_key_if_exists : c.Bucket → String → Exec c.World (Unit {0})
  remove_key_if_exists bucket key = and_then (c.get_any bucket key) (removed_if_there bucket key)

  -- for !StopWorkload { valIndex = (valIndex + 1) % numItems; ... }, for a number of rounds; what it
  -- returns is what the code sends on chErr. `%` by 0 panics.
  unfoldable pub workload : (ℕ → Exec c.World (Unit {0})) → ℕ → ℕ → ℕ → Run c.World (Unit {0})
  workload act num_items zero val_index s = none
  workload act num_items (suc rounds) val_index s =
      let val_index' = (val_index + 1) % num_items in
      let turn =
        after_run (some (act val_index' s)) (λ _. workload act num_items rounds val_index') in
      if c.stop_workload s
      then some (ok tt, s)
      else if eqb num_items 0
      then some (panic, s)
      else turn

  unfoldable pub kv_get_workload : c.Bucket → ℕ → ℕ → Run c.World (Unit {0})
  kv_get_workload bucket num_items rounds = workload (get_item bucket) num_items rounds 0

  unfoldable pub kv_upsert_workload : c.Bucket → ℕ → ℕ → Run c.World (Unit {0})
  kv_upsert_workload bucket num_items rounds = workload (upsert_item bucket) num_items rounds 0

  abbrev rows_or_error : Bool → Exec c.World (Unit {0})
  rows_or_error true s = (ok tt, s)
  rows_or_error false s = (err (failure "Unexpected result from N1ql. rows is null"), s)

  unfoldable pub query_item : c.Bucket → ℕ → Exec c.World (Unit {0})
  query_item bucket i =
      c.n1ql_query bucket (
        "SELECT * from "
        ++ (c.bucket_name bucket ++ (" where PropValue = 'SampleValue" ++ (show_nat i ++ "'"))))
      >>= rows_or_error

  unfoldable pub n1ql_workload : c.Bucket → ℕ → ℕ → Run c.World (Unit {0})
  n1ql_workload bucket num_items rounds = workload (query_item bucket) num_items rounds 0

  -- The message for a search that did not find the one document.
  unfoldable pub search_error : String → SearchReply → String
  search_error str res =
      join "," res.errors
      ++ (if eqb res.hits 1 then "" else str ++ (":Hits expected 1 but was " ++ res.shown_hits))

  abbrev has_error : List String → Bool
  has_error [] = false
  has_error (e ∷ es) = true

  abbrev one_hit : String → SearchReply → Exec c.World (Unit {0})
  one_hit str res s = (
    if has_error res.errors || not (eqb res.hits 1)
        then err (failure ("Error from FTS:" ++ search_error str res))
        else ok tt,
    s,
  )

  unfoldable pub search_item : c.Bucket → String → ℕ → Exec c.World (Unit {0})
  search_item bucket index i =
      c.search_query bucket index ("SampleValue" ++ show_nat i)
      >>= one_hit ("SampleValue" ++ show_nat i)

  unfoldable pub fts_workload : c.Bucket → String → ℕ → ℕ → Run c.World (Unit {0})
  fts_workload bucket index num_items rounds =
      workload (search_item bucket index) num_items rounds 0
