-- ===== src/Peer/Polling.antt =====
-- The methods of cluster/node.go that wait: PollRebalance, PollJoinReady, PollCompressionMode,
-- PollSampleBucket, WaitForBucketReady, WaitForBucketHealthy, LoadSample.
use Prim.Native.String.{◌++◌}
use cbdynclusterd.Prelude.{
  ℕ, ◌+◌, ◌*◌, ◌^◌, String, Bool, true, false, ◌||◌, Option, none, some, List, [], ◌∷◌, eqb, leb,
  if◌then◌else◌, ◌==◌,
}
use cbdynclusterd.Prelude.Int.{ℤ, pos, negsuc}
use cbdynclusterd.Prelude.Result.{Error, failure, Result, ok, err, panic, ◌>>=◌}
use cbdynclusterd.Prelude.Exec.{Exec}
use cbdynclusterd.Prelude.Run.{Run, exec, after_run}
use cbdynclusterd.Time.{Time, second, before, add}
use cbdynclusterd.Json.{Members, end, member, field, as_text, as_number, as_object, is_nil}
use cbdynclusterd.Rest.{Net, rest_retry}
use cbdynclusterd.Server.{RespNode, form_call, bare_call, rest_unit}
use cbdynclusterd.Poll.{poll}
use cbdynclusterd.Peer.{Decoder, Place, asking, get_text, update_node, resp_nodes}

-- The number that parseRebalanceProgress returns only goes to a log line; what shows is whether it
-- panics: at a value that is no object with a number `progress`, and, dividing by zero, if `status`
-- is the only key.
unfoldable pub progress_entries : Members → Result ℕ
progress_entries end = ok 0
progress_entries (member k v m) = do
  cnt ← progress_entries m
  if k == "status"
      then ok cnt
      else (as_object v >>= λ element. as_number (field "progress" element) >>= λ p. ok (cnt + 1))

unfoldable pub parse_rebalance_progress : Members → Result (Unit {0})
parse_rebalance_progress status =
    progress_entries status >>= λ cnt. if eqb cnt 0 then panic else ok tt

abbrev failure_of : Result String → Result (Option (Unit {0}))
failure_of (ok message) = err (failure message)
failure_of (err e) = err e
failure_of panic = panic

-- One answer of /pools/default/rebalanceProgress; `none` asks again.
unfoldable pub rebalance_status : Members → Result (Option (Unit {0}))
rebalance_status status = as_text (field "status" status) >>= λ state.
    if state == "none"
    then (if is_nil (field "errorMessage" status)
        then ok (some tt)
        else failure_of (as_text (field "errorMessage" status)))
    else if state == "running"
    then (parse_rebalance_progress status >>= λ _. ok none)
    else ok none

abbrev ready_if : Bool → Option (Unit {0})
ready_if true = some tt
ready_if false = none

-- status["clusterCompatibility"].(float64) > 0
abbrev is_positive : ℤ × ℕ → Bool
is_positive (pos m, e) = leb 1 m
is_positive (negsuc m, e) = false

unfoldable pub join_status : Members → Result (Option (Unit {0}))
join_status status = do
  compatibility ← as_number (field "clusterCompatibility" status)
  ok (ready_if (is_positive compatibility))

unfoldable pub compression_status : String → Members → Result (Option (Unit {0}))
compression_status mode status = do
  current ← as_text (field "compressionMode" status)
  ok (ready_if (current == mode))

-- helper.SampleBucketsCount[s]; 0 for a missing key
unfoldable pub sample_count : String → ℕ
sample_count s =
    if s == "travel-sample"
    then 31591
    else if s == "beer-sample"
    then 7303
    else if s == "gamesim-sample"
    then 586
    else 0

-- itemCount == count || itemCount >= 2*count
abbrev is_loaded : ℕ → ℤ × ℕ → Bool
is_loaded count (pos m, e) = eqb m (count * 10 ^ e) || leb (2 * count * 10 ^ e) m
is_loaded count (negsuc m, e) = false

abbrev sample_outcome : Bool → Bool → Result (Option (Unit {0}))
sample_outcome true late = ok (some tt)
sample_outcome false true = err (failure "Timeout while loading sample bucket.")
sample_outcome false false = ok none

-- `late` is time.Now().After(deadline).
unfoldable pub sample_status : ℕ → Bool → Members → Result (Option (Unit {0}))
sample_status count late parsed = do
  basic_stats ← as_object (field "basicStats" parsed)
  item_count ← as_number (field "itemCount" basic_stats)
  sample_outcome (is_loaded count item_count) late

-- All members are healthy.
unfoldable pub bucket_status : List RespNode → Option (Unit {0})
bucket_status [] = some tt
bucket_status (nd ∷ nds) = if nd.status == "healthy" then bucket_status nds else none

abbrev pub check : {A : Type 0} → (Members → Result A) → Members × Option Error → Result A
check f (parsed, none) = f parsed
check f (parsed, some e) = err e

module _ (net : Net) (dec : Decoder) where
  -- A round of a loop that decodes each answer afresh.
  abbrev pub ask_status :
      (net.World → Members → Result (Option (Unit {0})))
      → String
      → Exec (Place net) (Option (Unit {0}))
  ask_status f path p =
      let (resp, world') = get_text net path p.node p.world in
      (resp >>= (λ text. check (f world') (dec.values end text)), record p { world = world' })

  unfoldable pub poll_rebalance : ℕ → Run (Place net) (Unit {0})
  poll_rebalance rounds =
      poll rounds (ask_status (λ _. rebalance_status) "/pools/default/rebalanceProgress")

  unfoldable pub poll_compression_mode : ℕ → String → String → Run (Place net) (Unit {0})
  poll_compression_mode rounds bucket mode =
      poll rounds (ask_status (λ _. compression_status mode) ("/pools/default/buckets/" ++ bucket))

  -- `clock` reads the time.
  unfoldable pub poll_sample_bucket : (net.World → Time) → ℕ → String → Run (Place net) (Unit {0})
  poll_sample_bucket clock rounds s p =
      let deadline = add (clock p.world) (pos (8 * 60 * second)) in
      poll rounds
        (ask_status (λ w. sample_status (sample_count s) (before deadline (clock w)))
          ("/pools/default/buckets/" ++ s))
        p

  abbrev decode_join : Members → Result String → Result (Option (Unit {0})) × Members
  decode_join old (ok text) = (check join_status (dec.values old text), (dec.values old text).0)
  decode_join old (err e) = (err e, old)
  decode_join old panic = (panic, old)

  -- PollJoinReady decodes every answer into the same map, so old keys stay.
  abbrev pub ask_join : Exec (Members × Place net) (Option (Unit {0}))
  ask_join (parsed, p) =
      let (resp, world') = get_text net "/nodes/self" p.node p.world in
      let (r, parsed') = decode_join parsed resp in (r, (parsed', record p { world = world' }))

  abbrev drop_map :
      Option (Result (Unit {0}) × (Members × Place net)) → Option (Result (Unit {0}) × Place net)
  drop_map none = none
  drop_map (some (r, (parsed, p))) = some (r, p)

  unfoldable pub poll_join_ready : ℕ → Run (Place net) (Unit {0})
  poll_join_ready rounds p = drop_map (poll rounds ask_join (end, p))

  abbrev pub ask_bucket : Exec (Place net) (Option (Unit {0}))
  ask_bucket p =
      let (r, p') = update_node net dec true p in
      (r >>= (λ _. resp_nodes p'.node >>= λ nodes. ok (bucket_status nodes)), p')

  unfoldable pub wait_for_bucket_ready : ℕ → Run (Place net) (Unit {0})
  wait_for_bucket_ready rounds = poll rounds ask_bucket

  abbrev first_then :
      Exec (Place net) (Unit {0}) → Run (Place net) (Unit {0}) → Run (Place net) (Unit {0})
  first_then m k p = after_run (exec m p) (λ _. k)

  unfoldable pub wait_for_bucket_healthy : ℕ → String → Run (Place net) (Unit {0})
  wait_for_bucket_healthy rounds b =
      first_then
        (asking net (λ n.
          rest_unit net 10 (record (bare_call "GET" ("/pools/default/buckets/" ++ b) n.rest_login) {
            retry_on_code = 404;
          })))
        (wait_for_bucket_ready rounds)

  unfoldable pub load_sample : (net.World → Time) → ℕ → String → Run (Place net) (Unit {0})
  load_sample clock rounds s =
      first_then
        (asking net (λ n.
          rest_unit net rest_retry
            (form_call 202 0 "POST" "/sampleBuckets/install" n.rest_login ("[\"" ++ (s ++ "\"]")))))
        (λ p.
          after_run (wait_for_bucket_healthy rounds s p) (λ _. poll_sample_bucket clock rounds s))
