-- ===== src/Poll.antt =====
-- The loops of cluster/node.go that ask a server until it is ready: `for { ...; select { ... } }`.
-- Each sends what it has decoded on a channel that it then reads, so the timeout beside that read
-- does not fire; the loops themselves have no bound.
pub mod Laws
use cbdynclusterd.Prelude.{ℕ, zero, suc, Option, none, some, ◌≡◌}
use cbdynclusterd.Prelude.Result.{Result, ok, err, panic}
use cbdynclusterd.Prelude.Exec.{Exec}
use cbdynclusterd.Prelude.Run.{Run}

-- The result of a round: `none` if the loop goes on.
abbrev pub settled : {A : Type 0} → Result (Option A) → Option (Result A)
settled (ok none) = none
settled (ok (some a)) = some (ok a)
settled (err e) = some (err e)
settled panic = some panic

module _ {S A : Type 0} where
  abbrev pub next_round : Option (Result A) → Run S A → Run S A
  next_round none again s = again s
  next_round (some r) again s = some (r, s)

  -- At most `rounds` rounds of the loop.
  unfoldable pub poll : ℕ → Exec S (Option A) → Run S A
  poll zero round s = none
  poll (suc rounds) round s = next_round (settled (round s).0) (poll rounds round) (round s).1

-- The loop as it is written, with no bound: from which states it returns `r`.
pub data Polls {S A : Type 0} (round : Exec S (Option A)) (r : Result A × S) : S → Type 0 where
  stops : {s : S} → settled (round s).0 ≡ some r.0 → (round s).1 ≡ r.1 → Polls round r s
  goes_on : {s : S} → settled (round s).0 ≡ none → Polls round r (round s).1 → Polls round r s
