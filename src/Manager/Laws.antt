-- ===== src/Manager/Laws.antt =====
-- Reading a node of the manager, and the entry point that it chooses.
use cbdynclusterd.Prelude.{
  ℕ, zero, suc, String, Bool-cases, Option, none, some, List, [], ◌∷◌, get_elem?, ◌≡◌, ◌⊎◌, inl,
  inr, refl, sym, Bool, ◌∙◌, ap, eq_iff, ◌==◌, if◌then◌else◌,
}
use cbdynclusterd.Prelude.Result.{Result, ok, panic, ok-injective}
use cbdynclusterd.Prelude.Exec.{Exec, pure, continue, exec-eq-ok, reads}
use cbdynclusterd.Rest.{Net}
use cbdynclusterd.Server.{Server}
use cbdynclusterd.Peer.{Decoder, membership, update_node}
use cbdynclusterd.Manager.{Site, set, at, visit, ignoring, get_ep_node}

set_same : {A : Type 0} (xs : List A) (i : ℕ) (v : A) → get_elem? xs i ≡ some v → set xs i v ≡ xs
set_same [] i v h = refl
set_same (x ∷ xs) zero v h = cc
set_same (x ∷ xs) (suc i) v h = rw (set_same xs i v h)

abbrev IsAmong : ℕ → List ℕ → Type 0
IsAmong i [] = ⊥
IsAmong i (j ∷ js) = (i ≡ j) ⊎ IsAmong i js

module _ (net : Net) (dec : Decoder) where
  -- What Membership says of the node that `i` points to.
  unfoldable pub membership_at : Site net → ℕ → Result String
  membership_at s i = elim (get_elem? s.nodes i) [ none ↦ panic | some n ↦ membership n ]

  visit-reads :
      {A : Type 0} (f : Server → Result A) (o : Option Server) (i : ℕ) (s : Site net)
      → get_elem? s.nodes i ≡ o
      → (visit net o i (reads (λ p. f p.node)) s).1 ≡ s
  visit-reads f none i s h = refl
  visit-reads f (some n) i s h = rw (set_same s.nodes i n h)

  -- Reading a node changes nothing.
  pub at-reads :
      {A : Type 0} (f : Server → Result A) (i : ℕ) (s : Site net)
      → (at net i (reads (λ p. f p.node)) s).1 ≡ s
  unfolding at
  at-reads f i s = visit-reads f (get_elem? s.nodes i) i s refl

  membership-at :
      (i : ℕ) (s : Site net) → (at net i (reads (λ p. membership p.node)) s).0 ≡ membership_at s i
  unfolding membership_at at
  membership-at i s =
      elim (get_elem? s.nodes i)
        as (λ o.
          (visit net o i (reads (λ p. membership p.node)) s).0
          ≡ elim o [ none ↦ panic | some n ↦ membership n ]) [ none ↦ refl | some n ↦ refl ]

  -- The entry point that is found is one of the nodes, and the answer that it has cached says that
  -- it is active.
  get_ep_node-active :
      (force : Bool) (nodes : List ℕ) (s s' : Site net) (i : ℕ)
      → get_ep_node net dec force nodes s ≡ (ok i, s')
      → IsAmong i nodes × (membership_at s' i ≡ ok "active")
  unfolding get_ep_node
  get_ep_node-active force [] s s' i h = cc
  get_ep_node-active force (j ∷ js) s s' i h =
      let read : Exec (Site net) String = at net j (reads (λ p. membership p.node)) in
      let decide : String → Exec (Site net) ℕ =
        λ state. if state == "active" then pure j else get_ep_node net dec force js in
      let t = at net j (ignoring net (update_node net dec force)) s in
      let (_, _, h1) = exec-eq-ok t.0 (λ _ r. continue (read r).0 decide (read r).1) t.1 s' i h in
      let (state, said, h2) = exec-eq-ok (read t.1).0 decide (read t.1).1 s' i h1 in
      elim (Bool-cases (state == "active")) [
        | inl active ↦
            let e : ◌≡◌ {A = Result ℕ × Site net} (ok j, (read t.1).1) (ok i, s') =
              rw active at h2 in
            let at_end : s' ≡ t.1 = sym (ap (λ p. p.1) e) ∙ at-reads membership j t.1 in
            (
              inl (ok-injective (sym (ap (λ p. p.0) e))),
              rw (at_end, ok-injective (sym (ap (λ p. p.0) e)))
                  (sym (membership-at j t.1) ∙ said ∙ ap ok ((eq_iff state "active").0 active)),
            )
        | inr other ↦
            let (among, is) = get_ep_node-active force js (read t.1).1 s' i (rw other at h2) in
            (inr among, is)
      ]
