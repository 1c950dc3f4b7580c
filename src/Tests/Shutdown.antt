-- ===== src/Tests/Shutdown.antt =====
-- A run of the daemon that serves one request, is interrupted, and shuts down.
use cbdynclusterd.Prelude.{ℕ, true, false, ◌≡◌, ◌⊎◌, refl}
use cbdynclusterd.Lifecycle.{
  Machine, printing, listening, signalling, leaving, ended, cleaning, stopped, not_running,
  selecting, watching, first, Serve, Move, Step, Steps, Ends,
}
use cbdynclusterd.Lifecycle.Laws.{store_outlives_cleanup, shutdown-Ends, handlers_outlive_store}

-- A request is being handled while a round of the cleanup runs.
abbrev busy : Machine
busy = record {
  main = listening;
  cleaner = cleaning;
  watcher = watching;
  server_closed = false;
  store_open = true;
  handlers = 1;
}

-- The checks have passed.
started : Steps first (record first { main = printing; cleaner = selecting; store_open = true })
started =
    Steps.later
      (Steps.later (Steps.later Steps.here (Step.moves (Move.opens refl)))
        (Step.moves (Move.connects refl)))
      (Step.moves (Move.finds_network refl))

busy_run : Steps first busy
busy_run =
    Steps.later
      (Steps.later
        (Steps.later (Steps.later started (Step.moves (Move.prints refl)))
          (Step.moves (Move.listens refl)))
        (Step.serves (Serve.accepts refl refl)))
      (Step.moves (Move.times_up (λ e. cc) (λ e. cc) refl))

store_outlives_cleanup_example :
    (busy.main ≡ printing → busy.store_open ≡ true)
    × (busy.cleaner ≡ cleaning → busy.store_open ≡ true)
    × (busy.main ≡ ended → (busy.cleaner ≡ stopped) ⊎ (busy.cleaner ≡ not_running))
store_outlives_cleanup_example = store_outlives_cleanup busy_run

shutdown-Ends_example : Ends (record busy { main = signalling })
shutdown-Ends_example =
    shutdown-Ends (Steps.later busy_run (Step.moves (Move.stops_listening refl))) refl

handlers_outlive_store_example :
    (t : Machine) × Steps busy t
    × (t.main ≡ leaving)
    × (t.store_open ≡ false)
    × (◌≡◌ {A = ℕ} t.handlers 1)
handlers_outlive_store_example = handlers_outlive_store busy_run refl
