-- ===== src/Router/Retry/Attempts.antt =====
-- How often `with_retry` calls, and what it answers.
use routerbot.Base.{
  ℕ, zero, suc, ◌+◌, ◌≤◌, ◌<◌, ◌≡◌, refl, ◌⊎◌, inl, inr, Bool, true, false, arith, ◌∙◌, Bool-cases,
}
use routerbot.Errors.{Outcome, returned, raised}
use routerbot.Router.Retry.{RetryPolicy, delay_for, should_retry, retry_loop, with_retry}

-- An outcome after which another attempt is made, if one is left.
abbrev pub retries : {A : Type 0} → RetryPolicy → Outcome A → Bool
retries p (returned a) = false
retries p (raised e) = should_retry p e

module _ {S A : Type 0} (noise : ℕ → ℕ) (sleep : ℕ → S → S) (p : RetryPolicy)
    (func : S → Outcome A × S) where
  -- The world before the `k`-th of the attempts that follow number `attempt`.
  unfoldable pub before : ℕ → ℕ → S → S
  before zero attempt s = s
  before (suc k) attempt s = before k (attempt + 1) (sleep (delay_for noise p attempt) (func s).1)

  abbrev again : ℕ → S → S
  again attempt s = sleep (delay_for noise p attempt) (func s).1

  pub loop-final :
      (left attempt : ℕ) (s : S)
      → retries p (func s).0 ≡ false
      → retry_loop noise sleep p func left attempt s ≡ func s
  unfolding retry_loop
  loop-final zero attempt s h = refl
  loop-final (suc left) attempt s h = ground arith

  pub loop-again :
      (left attempt : ℕ) (s : S)
      → retries p (func s).0 ≡ true
      → retry_loop noise sleep p func (suc left) attempt s
        ≡ retry_loop noise sleep p func left
            (attempt + 1)
            (sleep (delay_for noise p attempt) (func s).1)
  unfolding retry_loop
  loop-again left attempt s h = ground arith

  loop_stops :
      (k left attempt : ℕ) (s : S)
      → k ≤ left
      → ((i : ℕ) → i < k → retries p (func (before i attempt s)).0 ≡ true)
      → (retries p (func (before k attempt s)).0 ≡ false) ⊎ (k ≡ left)
      → retry_loop noise sleep p func left attempt s ≡ func (before k attempt s)
  unfolding before
  loop_stops zero zero attempt s b h e = unfold retry_loop in refl
  loop_stops (suc k) zero attempt s b h e = absurd (omega arith)
  loop_stops zero (suc left) attempt s b h e =
      loop-final (suc left) attempt s (elim e [ inl f ↦ f | inr g ↦ absurd (omega arith) ])
  loop_stops (suc k) (suc left) attempt s b h e =
      loop-again left attempt s (h 0 (omega arith))
      ∙ loop_stops k left (attempt + 1) _ (omega arith) (λ i b'. h (suc i) (omega arith))
          (elim e [ inl f ↦ inl f | inr g ↦ inr (omega arith) ])

  -- Every retry before the `k`-th is called for, and the `k`-th attempt is the last allowed or its
  -- outcome is not retried: then `with_retry` has the outcome and the world of that attempt.
  pub with_retry_stops :
      (k : ℕ) (s : S)
      → k ≤ p.max_retries
      → ((i : ℕ) → i < k → retries p (func (before i 0 s)).0 ≡ true)
      → (retries p (func (before k 0 s)).0 ≡ false) ⊎ (k ≡ p.max_retries)
      → with_retry noise sleep p func s ≡ func (before k 0 s)
  unfolding with_retry
  with_retry_stops k s b h e = loop_stops k p.max_retries 0 s b h e

  module _ (calls : S → ℕ) (up : (s : S) → calls (func s).1 ≡ calls s + 1)
      (same : (d : ℕ) (s : S) → calls (sleep d s) ≡ calls s) where
    loop_calls :
        (left attempt : ℕ) (s : S)
        → let (o, t) = retry_loop noise sleep p func left attempt s in
          (calls s + 1 ≤ calls t)
          × (calls t ≤ calls s + left + 1)
          × (retries p o ≡ true → calls t ≡ calls s + left + 1)
    loop_calls zero attempt s =
        unfold retry_loop in (omega (arith, up s), omega (arith, up s), λ h. omega (arith, up s))
    loop_calls (suc left) attempt s = elim (Bool-cases (retries p (func s).0)) [
      | inl t ↦ rw (loop-again left attempt s t) (
          let (low, high, full) = loop_calls left (attempt + 1) (again attempt s) in
          let e : calls (again attempt s) ≡ calls s + 1 =
            same (delay_for noise p attempt) (func s).1 ∙ up s in
          (omega arith, omega arith, λ h. omega (arith, full h)))
      | inr f ↦
          rw (loop-final (suc left) attempt s f) (omega (arith, up s), omega (arith, up s), λ h. cc)
    ]

    -- With a count of the calls in the world, which each call raises by one and a sleep keeps: at
    -- least one call is made, at most `max_retries + 1` are, and exactly that many are unless the
    -- answer is one that is not retried.
    pub with_retry_calls :
        (s : S)
        → let (o, t) = with_retry noise sleep p func s in
          (calls s + 1 ≤ calls t)
          × (calls t ≤ calls s + p.max_retries + 1)
          × ((retries p o ≡ false) ⊎ (calls t ≡ calls s + p.max_retries + 1))
    unfolding with_retry
    with_retry_calls s =
        let (low, high, full) = loop_calls p.max_retries 0 s in
        (
          low,
          high,
          elim (Bool-cases (retries p (with_retry noise sleep p func s).0)) [
            | inl t ↦ inr (full t)
            | inr f ↦ inl f
          ],
        )
