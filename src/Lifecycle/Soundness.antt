-- ===== src/Lifecycle/Soundness.antt =====
-- Which places of the goroutines of startDaemon go together.
use cbdynclusterd.Prelude.{Bool, true, false, ◌≡◌, ◌⊎◌, arith}
use cbdynclusterd.Lifecycle.{
  Main, opening, connecting, checking, printing, preparing, listening, signalling, awaiting,
  closing, leaving, ended, Cleaner, not_running, selecting, cleaning, acknowledging, stopped,
  Machine, Serve, Move, Step, Steps,
}

-- Where the cleanup routine may be, and whether the data base is open, by where startDaemon is.
abbrev pub Agrees : Main → Cleaner → Bool → Type 0
Agrees opening c b = (c ≡ not_running) × (b ≡ false)
Agrees connecting c b = (c ≡ not_running) × (b ≡ true)
Agrees checking c b = (c ≡ not_running) × (b ≡ true)
Agrees printing c b = ((c ≡ selecting) ⊎ (c ≡ cleaning)) × (b ≡ true)
Agrees preparing c b = ((c ≡ selecting) ⊎ (c ≡ cleaning)) × (b ≡ true)
Agrees listening c b = ((c ≡ selecting) ⊎ (c ≡ cleaning)) × (b ≡ true)
Agrees signalling c b = ((c ≡ selecting) ⊎ (c ≡ cleaning)) × (b ≡ true)
Agrees awaiting c b = (c ≡ acknowledging) × (b ≡ true)
Agrees closing c b = (c ≡ stopped) × (b ≡ true)
Agrees leaving c b = c ≡ stopped
Agrees ended c b = (c ≡ stopped) ⊎ (c ≡ not_running)

abbrev pub IsSound : Machine → Type 0
IsSound s = Agrees s.main s.cleaner s.store_open

Serve-IsSound : {s t : Machine} → IsSound s → Serve s t → IsSound t
Serve-IsSound h (Serve.accepts p q) = h
Serve-IsSound h (Serve.answers n p q) = h

pub Move-IsSound : {s t : Machine} → IsSound s → Move s t → IsSound t
Move-IsSound h (Move.opens p) = ground arith
Move-IsSound h (Move.fails_to_open p) = ground arith
Move-IsSound h (Move.connects p) = ground arith
Move-IsSound h (Move.fails_to_connect p) = ground arith
Move-IsSound h (Move.finds_network p) = ground arith
Move-IsSound h (Move.finds_no_network p) = ground arith
Move-IsSound h (Move.prints p) = ground arith
Move-IsSound h (Move.listens p) = ground arith
Move-IsSound h (Move.interrupted p q) = h
Move-IsSound h (Move.closes_server p q) = h
Move-IsSound h (Move.stops_listening p) = ground arith
Move-IsSound h (Move.times_up p q r) = ground arith
Move-IsSound h (Move.cleans p q) = ground arith
Move-IsSound h (Move.shuts_down p q) = ground arith
Move-IsSound h (Move.acknowledges p q) = ground arith
Move-IsSound h (Move.closes_store p) = ground arith
Move-IsSound h (Move.fails_to_close p) = ground arith
Move-IsSound h (Move.leaves p) = ground arith

Step-IsSound : {s t : Machine} → IsSound s → Step s t → IsSound t
Step-IsSound h (Step.serves p) = Serve-IsSound h p
Step-IsSound h (Step.moves p) = Move-IsSound h p

pub Steps-IsSound : {s t : Machine} → IsSound s → Steps s t → IsSound t
Steps-IsSound h Steps.here = h
Steps-IsSound h (Steps.later r st) = Step-IsSound (Steps-IsSound h r) st
