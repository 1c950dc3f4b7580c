-- ===== src/Lifecycle.antt =====
-- startDaemon of daemon/daemon.go: its goroutines and how they end. The function itself runs beside
-- the cleanup routine, the goroutine that waits for a signal, and those in which net/http runs the
-- handlers. Each communication over shutdownSig and cleanupClosedSig is one step of both sides, for
-- these channels have no buffer. A panic, which ends the program at once, and what happens inside a
-- round of the cleanup are left out: that a round returns is a supposition.
pub mod Soundness
pub mod Laws
use cbdynclusterd.Prelude.{ℕ, suc, Bool, true, false, ◌≡◌, ◌≢◌}

-- Where startDaemon is.
pub data Main : Type 0 where
  -- in openMeta
  opening : Main
  -- in connectDocker
  connecting : Main
  -- in hasMacvlan0
  checking : Main
  -- in getAndPrintClusters, the cleanup routine having been started
  printing : Main
  -- before signal.Notify and its goroutine
  preparing : Main
  -- in ListenAndServe
  listening : Main
  -- at shutdownSig <- struct{}{}
  signalling : Main
  -- at <-cleanupClosedSig
  awaiting : Main
  -- before metaStore.Close()
  closing : Main
  -- after it
  leaving : Main
  -- returned, which ends the program
  ended : Main

-- Where the cleanup routine is: not started, in its select, in cleanupClusters, at
-- cleanupClosedSig <- struct{}{}, returned.
pub data Cleaner : Type 0 where
  not_running : Cleaner
  selecting : Cleaner
  cleaning : Cleaner
  acknowledging : Cleaner
  stopped : Cleaner

-- Where the goroutine of the signal is: before go, at <-c, before restServer.Close(), after it.
pub data Watcher : Type 0 where
  not_started : Watcher
  watching : Watcher
  stopping : Watcher
  done : Watcher

pub record Machine : Type 0 where
  pub main : Main
  pub cleaner : Cleaner
  pub watcher : Watcher
  pub server_closed : Bool
  -- metaStore.Open has succeeded, and metaStore.Close has not
  pub store_open : Bool
  -- the number of handlers that are running
  pub handlers : ℕ

abbrev pub first : Machine
first = record {
  main = opening;
  cleaner = not_running;
  watcher = not_started;
  server_closed = false;
  store_open = false;
  handlers = 0;
}

-- ListenAndServe has returned.
abbrev pub is_stopping : Main → Bool
is_stopping signalling = true
is_stopping awaiting = true
is_stopping closing = true
is_stopping leaving = true
is_stopping ended = true
is_stopping _ = false

-- The server has been started and the program runs. If ListenAndServe has returned with an error of
-- its own, the connections that are open still bring requests.
abbrev may_serve : Main → Bool
may_serve listening = true
may_serve signalling = true
may_serve awaiting = true
may_serve closing = true
may_serve leaving = true
may_serve _ = false

-- A handler starts or returns.
pub data Serve (s : Machine) : Machine → Type 0 where
  -- A server that is closed accepts no request.
  accepts :
      may_serve s.main ≡ true
      → s.server_closed ≡ false
      → Serve s (record s { handlers = suc s.handlers })
  answers : (n : ℕ) → s.main ≢ ended → s.handlers ≡ suc n → Serve s (record s { handlers = n })

-- A step of startDaemon, of the cleanup routine, or of the goroutine of the signal.
pub data Move (s : Machine) : Machine → Type 0 where
  opens : s.main ≡ opening → Move s (record s { main = connecting; store_open = true })
  fails_to_open : s.main ≡ opening → Move s (record s { main = ended })
  connects : s.main ≡ connecting → Move s (record s { main = checking })
  -- startDaemon returns and leaves the data base open, here and without the network.
  fails_to_connect : s.main ≡ connecting → Move s (record s { main = ended })
  finds_network : s.main ≡ checking → Move s (record s { main = printing; cleaner = selecting })
  finds_no_network : s.main ≡ checking → Move s (record s { main = ended })
  prints : s.main ≡ printing → Move s (record s { main = preparing })
  listens : s.main ≡ preparing → Move s (record s { main = listening; watcher = watching })
  interrupted : s.main ≢ ended → s.watcher ≡ watching → Move s (record s { watcher = stopping })
  -- restServer.Close() does not wait for the handlers.
  closes_server :
      s.main ≢ ended
      → s.watcher ≡ stopping
      → Move s (record s { watcher = done; server_closed = true })
  -- ListenAndServe returns when the server is closed, or with an error of its own.
  stops_listening : s.main ≡ listening → Move s (record s { main = signalling })
  -- A sender that waits is served by select before five minutes have passed.
  times_up :
      s.main ≢ ended
      → s.main ≢ signalling
      → s.cleaner ≡ selecting
      → Move s (record s { cleaner = cleaning })
  cleans : s.main ≢ ended → s.cleaner ≡ cleaning → Move s (record s { cleaner = selecting })
  shuts_down :
      s.main ≡ signalling
      → s.cleaner ≡ selecting
      → Move s (record s { main = awaiting; cleaner = acknowledging })
  acknowledges :
      s.main ≡ awaiting
      → s.cleaner ≡ acknowledging
      → Move s (record s { main = closing; cleaner = stopped })
  closes_store : s.main ≡ closing → Move s (record s { main = leaving; store_open = false })
  -- An error of metaStore.Close() is only logged.
  fails_to_close : s.main ≡ closing → Move s (record s { main = leaving })
  leaves : s.main ≡ leaving → Move s (record s { main = ended })

pub data Step (s t : Machine) : Type 0 where
  serves : Serve s t → Step s t
  moves : Move s t → Step s t

-- The states after any number of steps from `s`.
pub data Steps (s : Machine) : Machine → Type 0 where
  here : Steps s s
  later : {t u : Machine} → Steps s t → Step t u → Steps s u

-- The same for handlers only.
pub data Serves (s : Machine) : Machine → Type 0 where
  none_yet : Serves s s
  one_more : {t u : Machine} → Serves s t → Serve t u → Serves s u

-- Whatever handlers start and return in between, the goroutines of the daemon can step, and in
-- whatever order they do, it takes only so many of their steps to get to the end of startDaemon.
pub data Ends : Machine → Type 0 where
  at_end : {s : Machine} → s.main ≡ ended → Ends s
  goes_on :
      {s : Machine}
      → ((u : Machine) → Serves s u → (t : Machine) × Move u t)
      → ((u t : Machine) → Serves s u → Move u t → Ends t)
      → Ends s
