-- ===== src/Tests/Workloads.antt =====
-- A bucket that is a list of documents, and the workload on two of them.
use cbdynclusterd.Prelude.{
  ℕ, zero, suc, String, Bool, true, false, Option, none, some, List, [], ◌∷◌, ◌≡◌, ◌≢◌, refl, arith,
  ◌<◌, eqb, ◌==◌, eq_iff, if◌then◌else◌, eq_refl, Bool-cases, inl, inr, ap,
}
use cbdynclusterd.Prelude.Text.{show_nat}
use cbdynclusterd.Prelude.Result.{Error, failure, Result, ok}
use cbdynclusterd.Workload.{
  KvData, Client, sample_data, is_sample, get_item, upsert_item, upsert_all, load_data, workload,
  kv_get_workload,
}
use cbdynclusterd.Workload.Laws.{IsBucket, load_data-kv_get_workload}

-- The documents, the last written first, and how many rounds are left until StopWorkload is set.
pub record Docs : Type 0 where
  pub docs : List (String × KvData)
  pub rounds : ℕ

abbrev find : String → List (String × KvData) → Option KvData
find key [] = none
find key ((k, d) ∷ ds) = if k == key then some d else find key ds

abbrev no_data : KvData
no_data = record { prop_value = ""; sub_fields = record { sub_value = ""; recurring_field = "" } }

abbrev answer : Option KvData → KvData × Option Error
answer none = (no_data, some (failure "key not found"))
answer (some d) = (d, none)

abbrev count_down : ℕ → ℕ
count_down zero = zero
count_down (suc n) = n

abbrev client : Client
client = record {
  World = Docs;
  Cluster = Unit {0};
  Bucket = Unit {0};
  stop_workload = λ s. eqb s.rounds 0;
  connect = λ url s. (ok tt, s);
  authenticate = λ cluster user password s. (ok tt, s);
  open_bucket = λ cluster name s. (ok tt, s);
  bucket_name = λ b. "default";
  get_data = λ b key s. (answer (find key s.docs), record s { rounds = count_down s.rounds });
  get_string = λ b key s. (ok tt, s);
  get_any = λ b key s. (ok tt, s);
  upsert_data = λ b key d s. (ok tt, record s { docs = (key, d) ∷ s.docs });
  remove_key = λ b key s. (ok tt, s);
  is_key_not_found = λ e. true;
  n1ql_query = λ b q s. (ok true, s);
  search_query = λ b i q s. (ok (record { errors = []; hits = 1; shown_hits = "[1]" }), s);
}

other_key : (key other : String) → key ≢ other → key == other ≡ false
other_key key other ne = elim (Bool-cases (key == other)) [
  | inl same ↦ absurd (ne ((eq_iff key other).0 same))
  | inr differ ↦ differ
]

client-IsBucket : IsBucket client
client-IsBucket = record {
  contents = λ b key s. find key s.docs;
  get_there = λ b key s d h. ap answer h;
  get_keeps = λ b key other s. refl;
  upsert_sets = λ b key d s h. rw (eq_refl key);
  upsert_keeps = λ b key other d s ne. rw (other_key key other ne);
}

abbrev start : Docs
start = record { docs = []; rounds = 3 }

abbrev filled : Docs
filled = record { docs = ("1", sample_data "1") ∷ ("0", sample_data "0") ∷ []; rounds = 3 }

loaded : load_data client "default" "10.0.0.7" "a" "b" 2 start ≡ (ok tt, filled)
unfolding load_data upsert_all upsert_item show_nat sample_data
loaded = refl

-- Three rounds, and then the end.
got : kv_get_workload client tt 2 4 filled ≡ some (ok tt, record filled { rounds = 0 })
unfolding kv_get_workload workload get_item is_sample sample_data show_nat
got = refl

load_data-kv_get_workload_example :
    (◌≡◌ {A = Result (Unit {0})} (ok tt) (ok tt))
    × (◌≡◌ {A = Bool} true true)
    × ((i : ℕ)
        → i < 2
        → client-IsBucket.contents tt (show_nat i) (record filled { rounds = 0 })
          ≡ some (sample_data (show_nat i)))
load_data-kv_get_workload_example =
    load_data-kv_get_workload client client-IsBucket "default" "10.0.0.7" "a" "b" 2 4 tt start
      filled (record filled { rounds = 0 }) (ok tt) (omega arith) loaded got
