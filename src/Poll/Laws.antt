-- ===== src/Poll/Laws.antt =====
-- A loop returns within some number of rounds exactly if the server comes to answer.
use cbdynclusterd.Prelude.{
  ℕ, zero, suc, ◌≤◌, Option, some, Option-cases, inl, inr, ◌≡◌, ◌↔◌, ◌∙◌, ap, arith,
}
use cbdynclusterd.Prelude.Result.{Result}
use cbdynclusterd.Prelude.Exec.{Exec}
use cbdynclusterd.Poll.{settled, poll, Polls, stops, goes_on}

module _ {S A : Type 0} (round : Exec S (Option A)) where
  -- More rounds than are needed change nothing.
  pub poll_mono :
      (n k : ℕ) (s : S) (r : Result A × S)
      → poll n round s ≡ some r
      → n ≤ k
      → poll k round s ≡ some r
  unfolding poll
  poll_mono zero k s r h le = cc
  poll_mono (suc n) zero s r h le = absurd (omega arith)
  poll_mono (suc n) (suc k) s r h le = elim (Option-cases (settled (round s).0)) [
    | inl more ↦ rw more (poll_mono n k (round s).1 r (rw more at h) (omega arith))
    | inr (a, end) ↦ rw end (rw end at h)
  ]

  poll-Polls : (n : ℕ) (s : S) (r : Result A × S) → poll n round s ≡ some r → Polls round r s
  unfolding poll
  poll-Polls zero s r h = cc
  poll-Polls (suc n) s r h = elim (Option-cases (settled (round s).0)) [
    | inl more ↦ goes_on more (poll-Polls n (round s).1 r (rw more at h))
    | inr (q, end) ↦
        let same : some (q, (round s).1) ≡ some r = rw end at h in stops (end ∙ cc) (cc)
  ]

  Polls-poll : (r : Result A × S) {s : S} → Polls round r s → (n : ℕ) × (poll n round s ≡ some r)
  unfolding poll
  Polls-poll r (stops {s} end same) = (1, rw end (ap (λ t. some (r.0, t)) same))
  Polls-poll r (goes_on {s} more p) = let (n, h) = Polls-poll r p in (suc n, rw more h)

  -- A polling loop returns a result within some number of rounds exactly if, written without a
  -- bound, it comes to a round that gives this result.
  pub poll_iff :
      (s : S) (r : Result A × S) → ((n : ℕ) × (poll n round s ≡ some r)) ↔ Polls round r s
  poll_iff s r = (λ (n, h). poll-Polls n s r h, Polls-poll r)
