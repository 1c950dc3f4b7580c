-- ===== src/Lifecycle/Laws.antt =====
-- That the daemon shuts down, and what is still running when it closes the data base.
use cbdynclusterd.Prelude.{
  ℕ, zero, suc, ◌+◌, ◌<◌, Bool, true, false, ◌≡◌, ◌≢◌, ◌⊎◌, inl, inr, refl, ◌∙◌, ap, subst, arith,
}
use cbdynclusterd.Lifecycle.{
  Main, opening, connecting, checking, printing, preparing, listening, signalling, awaiting,
  closing, leaving, ended, Cleaner, not_running, selecting, cleaning, acknowledging, stopped,
  Watcher, watching, stopping, Machine, first, is_stopping, Serve, Move, Step, Steps, Serves, Ends,
}
use cbdynclusterd.Lifecycle.Soundness.{Agrees, IsSound, Move-IsSound, Steps-IsSound}

-- The data base is open while startDaemon prints the clusters and while a round of the cleanup
-- runs; when startDaemon has returned, also early or where closing the data base failed, the cleanup
-- routine has returned too, or was never started.
pub store_outlives_cleanup :
    {s : Machine}
    → Steps first s
    → (s.main ≡ printing → s.store_open ≡ true)
      × (s.cleaner ≡ cleaning → s.store_open ≡ true)
      × (s.main ≡ ended → (s.cleaner ≡ stopped) ⊎ (s.cleaner ≡ not_running))
store_outlives_cleanup {s} r = sound s.main s.cleaner s.store_open (Steps-IsSound (refl, refl) r)
  where
    sound :
        (m : Main) (c : Cleaner) (b : Bool)
        → Agrees m c b
        → (m ≡ printing → b ≡ true)
          × (c ≡ cleaning → b ≡ true)
          × (m ≡ ended → (c ≡ stopped) ⊎ (c ≡ not_running))
    sound opening c b h = ground arith
    sound connecting c b h = ground arith
    sound checking c b h = ground arith
    sound printing c b h = ground arith
    sound preparing c b h = ground arith
    sound listening c b h = ground arith
    sound signalling c b h = ground arith
    sound awaiting c b h = ground arith
    sound closing c b h = ground arith
    sound leaving c b h = ground arith
    sound ended c b h = ground arith

abbrev main_left : Main → ℕ
main_left signalling = 4
main_left awaiting = 3
main_left closing = 2
main_left leaving = 1
main_left _ = 0

abbrev cleaner_left : Cleaner → ℕ
cleaner_left cleaning = 1
cleaner_left _ = 0

abbrev watcher_left : Watcher → ℕ
watcher_left watching = 2
watcher_left stopping = 1
watcher_left _ = 0

-- The number of moves that are left.
abbrev moves_left : Machine → ℕ
moves_left s = main_left s.main + cleaner_left s.cleaner + watcher_left s.watcher

-- Handlers change nothing of this.
record IsServed (s u : Machine) : Type 0 where
  sound : IsSound u
  main_same : u.main ≡ s.main
  left_same : moves_left u ≡ moves_left s

Serves-IsServed : {s u : Machine} → IsSound s → Serves s u → IsServed s u
Serves-IsServed h Serves.none_yet = record { sound = h; main_same = refl; left_same = refl }
Serves-IsServed h (Serves.one_more r (Serve.accepts p q)) =
    let i = Serves-IsServed h r in
    record { sound = i.sound; main_same = i.main_same; left_same = i.left_same }
Serves-IsServed h (Serves.one_more r (Serve.answers n p q)) =
    let i = Serves-IsServed h r in
    record { sound = i.sound; main_same = i.main_same; left_same = i.left_same }

Move-is_stopping :
    {s t : Machine}
    → IsSound s
    → is_stopping s.main ≡ true
    → Move s t
    → (is_stopping t.main ≡ true) × (moves_left t < moves_left s)
Move-is_stopping h g (Move.opens p) = ground arith
Move-is_stopping h g (Move.fails_to_open p) = ground arith
Move-is_stopping h g (Move.connects p) = ground arith
Move-is_stopping h g (Move.fails_to_connect p) = ground arith
Move-is_stopping h g (Move.finds_network p) = ground arith
Move-is_stopping h g (Move.finds_no_network p) = ground arith
Move-is_stopping h g (Move.prints p) = ground arith
Move-is_stopping h g (Move.listens p) = ground arith
Move-is_stopping h g (Move.interrupted p q) = ground arith
Move-is_stopping h g (Move.closes_server p q) = ground arith
Move-is_stopping h g (Move.stops_listening p) = ground arith
Move-is_stopping h g (Move.times_up p q r) = ground arith
Move-is_stopping h g (Move.cleans p q) = ground arith
Move-is_stopping h g (Move.shuts_down p q) = ground arith
Move-is_stopping h g (Move.acknowledges p q) = ground arith
Move-is_stopping h g (Move.closes_store p) = ground arith
Move-is_stopping h g (Move.fails_to_close p) = ground arith
Move-is_stopping h g (Move.leaves p) = ground arith

-- Not at its end, it is not stuck.
progress :
    (u : Machine) (m : Main)
    → u.main ≡ m
    → is_stopping m ≡ true
    → m ≢ ended
    → Agrees m u.cleaner u.store_open
    → (t : Machine) × Move u t
progress u signalling e g n ((inl p), q) = (_, Move.shuts_down e p)
progress u signalling e g n ((inr p), q) = (_, Move.cleans (ground arith) p)
progress u awaiting e g n (p, q) = (_, Move.acknowledges e p)
progress u closing e g n h = (_, Move.closes_store e)
progress u leaving e g n h = (_, Move.leaves e)
progress u ended e g n h = absurd (n refl)
progress u opening e g n h = cc
progress u connecting e g n h = cc
progress u checking e g n h = cc
progress u printing e g n h = cc
progress u preparing e g n h = cc
progress u listening e g n h = cc

ended_or_not : (m : Main) → (m ≡ ended) ⊎ (m ≢ ended)
ended_or_not ended = inl refl
ended_or_not opening = inr (λ e. cc)
ended_or_not connecting = inr (λ e. cc)
ended_or_not checking = inr (λ e. cc)
ended_or_not printing = inr (λ e. cc)
ended_or_not preparing = inr (λ e. cc)
ended_or_not listening = inr (λ e. cc)
ended_or_not signalling = inr (λ e. cc)
ended_or_not awaiting = inr (λ e. cc)
ended_or_not closing = inr (λ e. cc)
ended_or_not leaving = inr (λ e. cc)

stopping-Ends :
    (k : ℕ) (s : Machine) → moves_left s < k → IsSound s → is_stopping s.main ≡ true → Ends s
stopping-Ends zero s lt h g = absurd (omega arith)
stopping-Ends (suc k) s lt h g = elim (ended_or_not s.main) [
  | inl e ↦ Ends.at_end e
  | inr n ↦
      Ends.goes_on
        (λ u r.
          let i = Serves-IsServed h r in
          progress u s.main i.main_same g n
            (subst (λ m. Agrees m u.cleaner u.store_open) i.main_same i.sound))
        (λ u t r st.
          let i = Serves-IsServed h r in
          let left = i.left_same in
          let (g', less) = Move-is_stopping i.sound (ap is_stopping i.main_same ∙ g) st in
          stopping-Ends k t (omega arith) (Move-IsSound i.sound st) g')
]

-- Once ListenAndServe has returned, whether the server was closed or it failed, and whatever handlers
-- start and return in between: the goroutines of the daemon are never stuck, and in whatever order
-- they step, it takes only so many of their steps to get to the end of startDaemon. Supposes that a
-- round of the cleanup that has begun returns.
pub shutdown-Ends : {s : Machine} → Steps first s → is_stopping s.main ≡ true → Ends s
shutdown-Ends {s} r g =
    stopping-Ends (suc (moves_left s)) s (omega arith) (Steps-IsSound (refl, refl) r) g

closing_run :
    {s u : Machine}
    → Steps s u
    → u.main ≡ listening
    → u.cleaner ≡ selecting
    → u.handlers ≡ s.handlers
    → (t : Machine) × Steps s t
      × (t.main ≡ leaving)
      × (t.store_open ≡ false)
      × (t.handlers ≡ s.handlers)
closing_run r e c same = (
  _,
  Steps.later
      (Steps.later
        (Steps.later (Steps.later r (Step.moves (Move.stops_listening e)))
          (Step.moves (Move.shuts_down refl c)))
        (Step.moves (Move.acknowledges refl refl)))
      (Step.moves (Move.closes_store refl)),
  refl,
  refl,
  same,
)

-- Handlers that run while the daemon listens may all be running still when the data base has been
-- closed.
pub handlers_outlive_store :
    {s : Machine}
    → Steps first s
    → s.main ≡ listening
    → (t : Machine) × Steps s t
      × (t.main ≡ leaving)
      × (t.store_open ≡ false)
      × (t.handlers ≡ s.handlers)
handlers_outlive_store {s} r e =
    at_work s.cleaner refl
      (subst (λ m. Agrees m s.cleaner s.store_open) e (Steps-IsSound (refl, refl) r))
  where
    at_work :
        (c : Cleaner)
        → s.cleaner ≡ c
        → Agrees listening c s.store_open
        → (t : Machine) × Steps s t
          × (t.main ≡ leaving)
          × (t.store_open ≡ false)
          × (t.handlers ≡ s.handlers)
    at_work selecting q h = closing_run Steps.here e q refl
    at_work cleaning q h =
        closing_run (Steps.later Steps.here (Step.moves (Move.cleans (ground arith) q))) e refl refl
    at_work acknowledging q h = ground arith
    at_work stopped q h = ground arith
    at_work not_running q h = ground arith
