-- ===== src/Workload/Laws.antt =====
-- What the workloads find of the documents that LoadData has written.
use Prim.Native.String.{◌++◌}
use native.Mathlib.Nat.{mod-lt}
use native.Mathlib.Decide.{dec_lt}
use cbdynclusterd.Prelude.{
  ℕ, zero, suc, ◌+◌, ◌%◌, ◌<◌, String, true, false, Option, none, some, ◌≡◌, ◌≢◌, ◌⊎◌, inl, inr,
  refl, sym, ap, ◌∙◌, subst, arith, eq_iff, eq_refl, ◌==◌, eqb, Bool-cases, some-injective,
}
use cbdynclusterd.Prelude.Text.{show_nat}
use cbdynclusterd.Prelude.Result.{Result, ok, ok-injective}
use cbdynclusterd.Prelude.Exec.{exec-eq-ok}
use cbdynclusterd.Workload.{
  KvData, Client, sample_data, is_sample, get_item, upsert_item, upsert_all, load_data, workload,
  kv_get_workload,
}

-- A bucket keeps what is written to it: `contents` is what it holds under a key. Reading a key that
-- is there succeeds, so the cluster answers; reading changes nothing, and a write changes its own
-- key at most.
pub record IsBucket (c : Client) : Type 0 where
  pub contents : c.Bucket → String → c.World → Option KvData
  pub get_there :
      (b : c.Bucket) (key : String) (s : c.World) (kv_data : KvData)
      → contents b key s ≡ some kv_data
      → (c.get_data b key s).0 ≡ (kv_data, none)
  pub get_keeps :
      (b : c.Bucket) (key other : String) (s : c.World)
      → contents b other (c.get_data b key s).1 ≡ contents b other s
  pub upsert_sets :
      (b : c.Bucket) (key : String) (kv_data : KvData) (s : c.World)
      → (c.upsert_data b key kv_data s).0 ≡ ok tt
      → contents b key (c.upsert_data b key kv_data s).1 ≡ some kv_data
  pub upsert_keeps :
      (b : c.Bucket) (key other : String) (kv_data : KvData) (s : c.World)
      → key ≢ other
      → contents b other (c.upsert_data b key kv_data s).1 ≡ contents b other s

sample_data-is_sample : (key : String) → is_sample key (sample_data key) ≡ true
unfolding is_sample sample_data
sample_data-is_sample key =
    rw (eq_refl ("SampleValue" ++ key), eq_refl ("SampleSubvalue" ++ key)) refl

module _ (c : Client) (laws : IsBucket c) (b : c.Bucket) where
  abbrev Holds : ℕ → c.World → Type 0
  Holds i s = laws.contents b (show_nat i) s ≡ some (sample_data (show_nat i))

  -- The documents of the first `n` numbers are there.
  abbrev Loaded : ℕ → c.World → Type 0
  Loaded n s = (i : ℕ) → i < n → Holds i s

  get_item-Holds :
      (i : ℕ) (s : c.World)
      → Holds i s
      → (get_item c b i s ≡ (ok tt, (c.get_data b (show_nat i) s).1))
  unfolding get_item
  get_item-Holds i s h =
      rw (laws.get_there b (show_nat i) s _ h, sample_data-is_sample (show_nat i)) refl

  below_suc : {s : c.World} (k i : ℕ) → Loaded i s → k < suc i → (k ≡ i) ⊎ Holds k s
  below_suc k i h lt = elim (dec_lt k i) [
    | yes below ↦ inr (h k below)
    | no above ↦ inl (omega arith)
  ]

  -- One key may be written again: it then holds its own document still.
  upsert_item-Holds :
      (i j : ℕ) (s : c.World)
      → (upsert_item c b i s).0 ≡ ok tt
      → (j ≡ i) ⊎ Holds j s
      → Holds j (upsert_item c b i s).1
  unfolding upsert_item
  upsert_item-Holds i j s done h = elim (Bool-cases (show_nat i == show_nat j)) [
    | inl same ↦
        subst (λ k. laws.contents b k (upsert_item c b i s).1 ≡ some (sample_data k))
          ((eq_iff (show_nat i) (show_nat j)).0 same)
          (laws.upsert_sets b (show_nat i) (sample_data (show_nat i)) s done)
    | inr other ↦ elim h [
      | inl p ↦ cc ((eq_iff (show_nat i) (show_nat j)).1 (ap show_nat (sym p)))
      | inr kept ↦
          laws.upsert_keeps b (show_nat i) (show_nat j) (sample_data (show_nat i)) s
            (λ e. cc ((eq_iff (show_nat i) (show_nat j)).1 e))
          ∙ kept
    ]
  ]

  upsert_all-Loaded :
      (left i : ℕ) (s last : c.World)
      → Loaded i s
      → upsert_all c b left i s ≡ (ok tt, last)
      → Loaded (left + i) last
  unfolding upsert_all
  upsert_all-Loaded zero i s last h done =
      λ k lt. subst (Holds k) (ap (λ r. r.1) done) (h k (omega arith))
  upsert_all-Loaded (suc left) i s last h done =
      let (_, did, rest) =
        exec-eq-ok (upsert_item c b i s).0 (λ _. upsert_all c b left (suc i))
          (upsert_item c b i s).1 last tt done in
      let loaded =
        upsert_all-Loaded left (suc i) (upsert_item c b i s).1 last
          (λ k lt. upsert_item-Holds i k s did (below_suc k i h lt)) rest in
      λ k lt. loaded k (omega arith)

  workload-Loaded :
      (n rounds i : ℕ) (s last : c.World) (r : Result (Unit {0}))
      → 0 < n
      → Loaded n s
      → workload c (get_item c b) n rounds i s ≡ some (r, last)
      → (r ≡ ok tt) × (c.stop_workload last ≡ true) × Loaded n last
  unfolding workload
  workload-Loaded n zero i s last r pos h done = cc
  workload-Loaded n (suc rounds) i s last r pos h done = elim (Bool-cases (c.stop_workload s)) [
    | inl stop ↦
        let ended : some (ok tt, s) ≡ some (r, last) = rw stop at done in
        let same = some-injective ended in
        (
          sym (ap (λ p. p.0) same),
          subst (λ x. c.stop_workload x ≡ true) (ap (λ p. p.1) same) stop,
          subst (Loaded n) (ap (λ p. p.1) same) h,
        )
    | inr running ↦
        let j = (i + 1) % n in
        let at_j = get_item-Holds j s (h j (mod-lt (i + 1) pos)) in
        let s' = (c.get_data b (show_nat j) s).1 in
        let n_pos : eqb n 0 ≡ false = ground arith in
        let next : workload c (get_item c b) n rounds j s' ≡ some (r, last) =
          rw (at_j) at (rw (running, n_pos) at done) in
        workload-Loaded n rounds j s' last r pos
          (λ k lt. laws.get_keeps b (show_nat j) (show_nat k) s ∙ h k lt) next
  ]

load_data-eq-ok :
    (c : Client) (bucket_name ep username password : String) (n : ℕ) (b : c.Bucket)
    (s last : c.World)
    → load_data c bucket_name ep username password n s ≡ (ok b, last)
    → (first : c.World) × (upsert_all c b n 0 first ≡ (ok tt, last))
unfolding load_data
load_data-eq-ok c bucket_name ep username password n b s last done =
    let connected = c.connect ("couchbase://" ++ ep) s in
    let (cluster, _, h1) = exec-eq-ok connected.0 _ connected.1 last b done in
    let opened =
      c.open_bucket cluster bucket_name (c.authenticate cluster username password connected.1).1 in
    let (bucket, _, h2) = exec-eq-ok opened.0 _ opened.1 last b h1 in
    let filled = upsert_all c bucket n 0 opened.1 in
    let (_, all, h3) = exec-eq-ok filled.0 _ filled.1 last b h2 in
    let same : bucket ≡ b = ok-injective (ap (λ r. r.0) h3) in
    (
      opened.1,
      subst (λ x. upsert_all c x n 0 opened.1 ≡ (ok tt, last)) same (λ k. (all k, (h3 k).1)),
    )

-- After LoadData of some items has succeeded, KvGetWorkload on as many items ends only because
-- StopWorkload is set, and then reports no error; the documents are all there still. Supposes
-- IsBucket.
pub load_data-kv_get_workload :
    (c : Client) (laws : IsBucket c) (bucket_name ep username password : String)
    (num_items rounds : ℕ) (b : c.Bucket) (s loaded last : c.World) (r : Result (Unit {0}))
    → 0 < num_items
    → load_data c bucket_name ep username password num_items s ≡ (ok b, loaded)
    → kv_get_workload c b num_items rounds loaded ≡ some (r, last)
    → (r ≡ ok tt)
      × (c.stop_workload last ≡ true)
      × ((i : ℕ)
          → i < num_items
          → laws.contents b (show_nat i) last ≡ some (sample_data (show_nat i)))
unfolding load_data kv_get_workload
load_data-kv_get_workload c laws bucket_name ep username password num_items rounds b s loaded last r
      pos done run =
    let (first, filled) =
      load_data-eq-ok c bucket_name ep username password num_items b s loaded done in
    let there =
      upsert_all-Loaded c laws b num_items 0 first loaded (λ i lt. absurd (omega arith)) filled in
    workload-Loaded c laws b num_items rounds 0 loaded last r pos (λ i lt. there i (omega arith))
      run
