-- ===== src/Rest/Laws.antt =====
-- How often RestRetryer calls its function, and what it returns; what GetResponse makes of a reply.
use cbdynclusterd.Prelude.{
  true, false, Bool-cases, inl, inr, ◌⊎◌, ℕ, zero, suc, ◌<◌, String, ◌≡◌, subst, ◌≢◌, ◌↔◌, refl, ap,
  sym, arith, eqb, none,
}
use cbdynclusterd.Prelude.Result.{failure, stop, Result, ok, err, panic}
use cbdynclusterd.Prelude.Exec.{Exec}
use cbdynclusterd.Rest.{RestCall, HttpResponse, Net, read_response, unstop, retry_or, rest_retryer}

-- An error that is not wrapped in `stop`.
abbrev pub IsRetryable : Result String → Type 0
IsRetryable (err (failure s)) = Unit
IsRetryable (err (stop e)) = ⊥
IsRetryable (ok body) = ⊥
IsRetryable panic = ⊥

module _ {S : Type 0} (fn : RestCall → Exec S String) (params : RestCall) where
  -- The state after some calls.
  abbrev pub calls : ℕ → S → S
  calls zero s = s
  calls (suc k) s = calls k (fn params s).1

  -- The result of the call after `k` others.
  abbrev pub outcome : ℕ → S → Result String
  outcome k s = (fn params (calls k s)).0

  -- The call numbered `k` from 0 decides: all before it failed with an error that may be retried,
  -- and it did not, or it was the last one allowed.
  pub record Decides (n : ℕ) (s : S) (k : ℕ) : Type 0 where
    pub in_time : k < n
    pub failed_before : (j : ℕ) → j < k → IsRetryable (outcome j s)
    pub settled : IsRetryable (outcome k s) → suc k ≡ n

  Decided : ℕ → S → Result String × S → Type 0
  Decided n s result = (k : ℕ) × Decides n s k × (result ≡ (unstop (outcome k s), calls (suc k) s))

  -- A first call that is not followed by another one.
  Decided-now :
      (n : ℕ) (s : S) (o : Result String)
      → outcome 0 s ≡ o
      → 0 < n
      → (IsRetryable o → 1 ≡ n)
      → Decided n s (unstop o, calls 1 s)
  unfolding Decided
  Decided-now n s o e lt last = (
    0,
    record {
      in_time = lt;
      failed_before = λ j h. absurd (omega arith);
      settled = λ q. last (subst IsRetryable e q);
    },
    rw e,
  )

  Decided-later :
      (n : ℕ) (s : S) (m : String) (result : Result String × S)
      → outcome 0 s ≡ err (failure m)
      → Decided n (calls 1 s) result
      → Decided (suc n) s result
  unfolding Decided
  Decided-later n s m result e (k, d, same) = (
    suc k,
    record {
      in_time = omega (arith, d.in_time);
      failed_before = before;
      settled = λ q. ap suc (d.settled q);
    },
    same,
  )
    where
      before : (j : ℕ) → j < suc k → IsRetryable (outcome j s)
      before zero h = subst IsRetryable (sym e) tt
      before (suc j) h = d.failed_before j (omega arith)

  Decided-next :
      (n : ℕ) (s : S) (o : Result String)
      → outcome 0 s ≡ o
      → 0 < n
      → Decided n (calls 1 s) (rest_retryer n fn params (calls 1 s))
      → Decided (suc n) s (retry_or (rest_retryer n fn params) o (calls 1 s))
  unfolding unstop
  Decided-next n s (ok body) e lt later =
      Decided-now (suc n) s (ok body) e (omega arith) (λ q. elim q [ ])
  Decided-next n s (err (failure m)) e lt later = Decided-later n s m _ e later
  Decided-next n s (err (stop x)) e lt later =
      Decided-now (suc n) s _ e (omega arith) (λ q. elim q [ ])
  Decided-next n s panic e lt later = Decided-now (suc n) s panic e (omega arith) (λ q. elim q [ ])

  retryer-Decided : (n : ℕ) (s : S) → 0 < n → Decided n s (rest_retryer n fn params s)
  unfolding rest_retryer
  retryer-Decided zero s h = absurd (omega arith)
  retryer-Decided (suc zero) s h = Decided-now 1 s (outcome 0 s) refl (omega arith) (λ _. refl)
  retryer-Decided (suc (suc r)) s h =
      Decided-next (suc r) s (outcome 0 s) refl (omega arith)
        (retryer-Decided (suc r) (calls 1 s) (omega arith))

  -- If at least one call is allowed, there is a call, numbered below the number allowed, that
  -- decides: all calls before it failed with an error that may be retried, and it did not, or it
  -- was the last one allowed. The result is that call's, an error taken out of its `stop`, and no
  -- call is made after it.
  pub rest_retryer-Decides :
      (n : ℕ) (s : S)
      → 0 < n
      → (k : ℕ) × Decides n s k
        × (rest_retryer n fn params s ≡ (unstop (outcome k s), calls (suc k) s))
  rest_retryer-Decides n s h = unfold Decided in retryer-Decided n s h

eq_cases : (a b : ℕ) → ((eqb a b ≡ true) × (a ≡ b)) ⊎ ((eqb a b ≡ false) × (a ≢ b))
eq_cases a b = elim (Bool-cases (eqb a b)) [
  | inl same ↦ inl (same, ground arith)
  | inr differ ↦ inr (differ, ground arith)
]

-- A reply with the expected code gives its body, one with the other code an error that is retried,
-- and any other an error that is not. Supposes that the reply's body could be read.
read_response_cases :
    (net : Net) (params : RestCall) (res : HttpResponse)
    → res.read_error ≡ none
    → ((read_response net params res ≡ ok res.body) ↔ (res.status_code ≡ params.expected_code))
      × (IsRetryable (read_response net params res)
          ↔ ((res.status_code ≢ params.expected_code) × (res.status_code ≡ params.retry_on_code)))
unfolding read_response
read_response_cases net params res readable = elim (eq_cases res.status_code params.expected_code) [
  | inl expected ↦
      rw (expected.0, readable)
        ((λ _. expected.1, λ _. refl), (λ h. elim h [ ], λ h. absurd (h.0 expected.1)))
  | inr other ↦ elim (eq_cases res.status_code params.retry_on_code) [
    | inl early ↦
        rw (other.0, early.0)
          ((λ h. cc, λ h. absurd (other.1 h)), (λ h. (other.1, early.1), λ h. tt))
    | inr wrong ↦
        rw (other.0, wrong.0)
          ((λ h. cc, λ h. absurd (other.1 h)), (λ h. elim h [ ], λ h. absurd (wrong.1 h.1)))
  ]
]
