-- ===== src/Manager/Rebalancing.antt =====
-- What an error of Manager.Rebalance means.
use cbdynclusterd.Prelude.{ℕ, zero, suc, Option, none, some, [], ◌≡◌, refl, ◌∙◌}
use cbdynclusterd.Prelude.Result.{Error, Result, ok, err, panic}
use cbdynclusterd.Prelude.Run.{after_run}
use cbdynclusterd.Rest.{Net}
use cbdynclusterd.Peer.{Decoder, rebalance_node}
use cbdynclusterd.Peer.Polling.{poll_rebalance}
use cbdynclusterd.Manager.{Site, at}
use cbdynclusterd.Manager.Setup.{at_run, try_again, rebalance_tries, manager_rebalance}

module _ (net : Net) (dec : Decoder) where
  module _ (rounds : ℕ) where
    tries_after :
        (k : ℕ) (s' : Site net) (e : Error) (o : Option (Result (Unit {0}) × Site net))
        → try_again net dec rounds (rebalance_tries net dec rounds k) o ≡ some (err e, s')
        → (s : Site net) × (rebalance_tries net dec rounds k s ≡ some (err e, s'))
    tries_after k s' e none h = cc
    tries_after k s' e (some (ok u, s)) h = cc
    tries_after k s' e (some (err x, s)) h = (s, h)
    tries_after k s' e (some (panic, s)) h = cc

    abbrev Failed : Site net → Error → Type 0
    Failed s' e =
        (before : Site net) × (at net 0 (rebalance_node net dec [] [] []) before ≡ (err e, s'))

    rebalance_tries_error :
        (k : ℕ) (s s' : Site net) (e : Error)
        → rebalance_tries net dec rounds k s ≡ some (err e, s')
        → Failed s' e
    unfolding rebalance_tries
    rebalance_tries_error zero s s' e h = cc
    rebalance_tries_error (suc k) s s' e h =
        go (λ m. rebalance_tries_error k m s' e) (at net 0 (rebalance_node net dec [] [] []) s) refl
          h
      where
        go :
            ((m : Site net) → rebalance_tries net dec rounds k m ≡ some (err e, s') → Failed s' e)
            → (x : Result (Unit {0}) × Site net) → at net 0 (rebalance_node net dec [] [] []) s ≡ x
            → after_run (some x) (λ _ m.
              try_again net dec rounds
                (rebalance_tries net dec rounds k)
                (at_run net 0 (poll_rebalance net dec rounds) m))
              ≡ some (err e, s')
            → Failed s' e
        go again (ok u, m) same g =
            let (m', h') = tries_after k s' e (at_run net 0 (poll_rebalance net dec rounds) m) g in
            again m' h'
        go again (err x, m) same g = (s, same ∙ cc)
        go again (panic, m) same g = cc

    -- An error of Manager.Rebalance is always one that a call of Rebalance on the first node gave,
    -- with the state that this call left.
    pub manager_rebalance_error :
        (s s' : Site net) (e : Error)
        → manager_rebalance net dec rounds s ≡ some (err e, s')
        → (before : Site net) × (at net 0 (rebalance_node net dec [] [] []) before ≡ (err e, s'))
    unfolding manager_rebalance
    manager_rebalance_error = rebalance_tries_error 2
