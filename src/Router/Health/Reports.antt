-- ===== src/Router/Health/Reports.antt =====
-- What the ends of a round's probes come to, in whichever order they come.
use routerbot.Base.{
  ℕ, ◌+◌, String, ◌≡◌, ◌≢◌, refl, sym, ◌∙◌, ap, true, false, ◌&&◌, List, [], ◌∷◌, ◌++◌, All, arith,
  lookup-remove, ==-refl, inl, inr, eq_iff, string_eq, ◌==◌, ltb, leb, if◌then◌else◌, Bool-cases,
}
use routerbot.Errors.{Error, Outcome, returned, raised}
use routerbot.Router.Cooldown.{
  CooldownManager, success, failure, apply, record_success, is_in_cooldown, failure_count,
}
use routerbot.Router.Cooldown.Isolation.{IsConsistent, apply-isolated, apply-IsConsistent}
use routerbot.Router.Cooldown.Episodes.{
  after_failure, failure_count-record_failure, settings-record_failure,
}
use routerbot.Router.Deployment.{Deployment}
use routerbot.Router.Health.{is_cancelled, settled, End, reports}

-- The failures of a name that stand on record after an end of its own, from those before it.
abbrev pub counted : {A : Type 0} → Outcome A → ℕ → ℕ
counted (returned a) n = 0
counted (raised e) n = if is_cancelled e then n else n + 1

-- The failures of a name in a row, over the ends of all.
abbrev pub streak : {A : Type 0} → String → List (End A) → ℕ → ℕ
streak j [] n = n
streak j ((d, t, o) ∷ rs) n = streak j rs (if d.name == j then counted o n else n)

after_success :
    (now : ℕ) (name : String) (c : CooldownManager)
    → (failure_count name (record_success name c) ≡ 0)
      × ((is_in_cooldown now name (record_success name c)).0 ≡ false)
unfolding record_success failure_count is_in_cooldown
after_success now name c = ground (
  arith,
  ==-refl name,
  lookup-remove name name c.failures,
  lookup-remove name name c.cooldown_until,
)

-- Consistent, with the settings that it had.
abbrev Kept : CooldownManager → CooldownManager → Type 0
Kept c c' =
    IsConsistent c'
    × (c'.allowed_fails ≡ c.allowed_fails)
    × (c'.cooldown_seconds ≡ c.cooldown_seconds)

module _ {A : Type 0} where
  settled-IsConsistent :
      (t : ℕ) (name : String) (o : Outcome A) (c : CooldownManager)
      → IsConsistent c
      → IsConsistent (settled t name o c).1
  unfolding settled apply
  settled-IsConsistent t name (returned a) c v = apply-IsConsistent c (success name) v
  settled-IsConsistent t name (raised e) c v = elim (Bool-cases (is_cancelled e)) [
    | inl y ↦ rw y v
    | inr n ↦ rw n (apply-IsConsistent c (failure t name) v)
  ]

  settled-isolated :
      (t now : ℕ) (name j : String) (o : Outcome A) (c : CooldownManager)
      → name ≢ j
      → (failure_count j (settled t name o c).1 ≡ failure_count j c)
        × ((is_in_cooldown now j (settled t name o c).1).0 ≡ (is_in_cooldown now j c).0)
  unfolding settled apply
  settled-isolated t now name j (returned a) c h = apply-isolated c (success name) j now h
  settled-isolated t now name j (raised e) c h = elim (Bool-cases (is_cancelled e)) [
    | inl y ↦ rw y (refl, refl)
    | inr n ↦ rw n (apply-isolated c (failure t name) j now h)
  ]

  settings-settled :
      (t : ℕ) (name : String) (o : Outcome A) (c : CooldownManager)
      → ((settled t name o c).1.allowed_fails ≡ c.allowed_fails)
        × ((settled t name o c).1.cooldown_seconds ≡ c.cooldown_seconds)
  unfolding settled record_success
  settings-settled t name (returned a) c = (refl, refl)
  settings-settled t name (raised e) c = elim (Bool-cases (is_cancelled e)) [
    | inl y ↦ rw y (refl, refl)
    | inr n ↦ rw n (settings-record_failure t name c)
  ]

  failure_count-settled :
      (t : ℕ) (name : String) (o : Outcome A) (c : CooldownManager)
      → failure_count name (settled t name o c).1 ≡ counted o (failure_count name c)
  unfolding settled
  failure_count-settled t name (returned a) c = (after_success 0 name c).0
  failure_count-settled t name (raised e) c = elim (Bool-cases (is_cancelled e)) [
    | inl y ↦ rw y refl
    | inr n ↦ rw n (failure_count-record_failure t name c)
  ]

  settled_any :
      (t : ℕ) (name j : String) (o : Outcome A) (c : CooldownManager)
      → failure_count j (settled t name o c).1
        ≡ (if name == j then counted o (failure_count j c) else failure_count j c)
  settled_any t name j o c = elim (Bool-cases (name == j)) [
    | inl y ↦
        let same = (eq_iff name j).0 y in
        rw y (
          ap (λ k. failure_count k (settled t name o c).1) (sym same)
          ∙ failure_count-settled t name o c
          ∙ ap (λ k. counted o (failure_count k c)) same)
    | inr n ↦ rw n (
        (settled-isolated t 0 name j o c
          (λ s. let z : true ≡ false = sym ((eq_iff name j).1 s) ∙ n in cc)).0)
  ]

  failure_count-reports :
      (j : String) (rs : List (End A)) (c : CooldownManager)
      → failure_count j (reports rs c) ≡ streak j rs (failure_count j c)
  unfolding reports
  failure_count-reports j [] c = refl
  failure_count-reports j ((d, t, o) ∷ rs) c =
      failure_count-reports j rs (settled t d.name o c).1
      ∙ ap (streak j rs) (settled_any t d.name j o c)

  reports-Kept : (rs : List (End A)) (c : CooldownManager) → IsConsistent c → Kept c (reports rs c)
  unfolding reports
  reports-Kept [] c v = (v, refl, refl)
  reports-Kept ((d, t, o) ∷ rs) c v =
      let (k, a, s) =
        reports-Kept rs (settled t d.name o c).1 (settled-IsConsistent t d.name o c v) in
      let (a', s') = settings-settled t d.name o c in (k, a ∙ a', s ∙ s')

  reports_others :
      (j : String) (now : ℕ) (rs : List (End A)) (c : CooldownManager)
      → All (λ r. r.0.name ≢ j) rs
      → (is_in_cooldown now j (reports rs c)).0 ≡ (is_in_cooldown now j c).0
  unfolding reports
  reports_others j now [] c a = refl
  reports_others j now ((d, t, o) ∷ rs) c a =
      reports_others j now rs (settled t d.name o c).1 a.1
      ∙ (settled-isolated t now d.name j o c a.0).1

  reports-append :
      (rs ss : List (End A)) (c : CooldownManager)
      → reports (rs ++ ss) c ≡ reports ss (reports rs c)
  unfolding reports
  reports-append [] ss c = refl
  reports-append ((d, t, o) ∷ rs) ss c = reports-append rs ss (settled t d.name o c).1

  -- After any ends of probes, the last one of a model's deployments decides: if it is a success, the
  -- model is not cooling, whatever its other deployments did; if it is a failure, at time `t`, the
  -- model is cooling at `now` exactly when its failures in a row, of all its deployments together
  -- and with those that were on record before, have reached `allowed_fails` and fewer than
  -- `cooldown_seconds` have passed since `t`.
  pub is_in_cooldown-reports :
      (d : Deployment) (t now : ℕ) (before after : List (End A)) (c : CooldownManager)
      → IsConsistent c
      → All (λ r. r.0.name ≢ d.name) after
      → ((a : A)
          → (is_in_cooldown now d.name (reports (before ++ (d, t, returned a) ∷ after) c)).0
            ≡ false)
        × ((e : Error)
            → is_cancelled e ≡ false
            → (is_in_cooldown now d.name (reports (before ++ (d, t, raised e) ∷ after) c)).0
              ≡ leb c.allowed_fails (streak d.name before (failure_count d.name c) + 1)
                && ltb now (t + c.cooldown_seconds))
  unfolding failure_count
  is_in_cooldown-reports d t now before after c v others =
      let m = reports before c in
      let (k, a, s) = reports-Kept before c v in
      let ends : (o : Outcome A)
          → (is_in_cooldown now d.name (reports (before ++ (d, t, o) ∷ after) c)).0
            ≡ (is_in_cooldown now d.name (settled t d.name o m).1).0 =
        λ o.
          ap (λ x. (is_in_cooldown now d.name x).0) (reports-append before ((d, t, o) ∷ after) c)
          ∙ (unfold reports in reports_others d.name now after (settled t d.name o m).1 others) in
      (
        λ x. ends (returned x) ∙ (unfold settled in (after_success now d.name m).1),
        λ e n.
            ends (raised e)
            ∙ (unfold settled in
                rw n (
                  after_failure t now d.name m k
                  ∙ rw (a, s, failure_count-reports d.name before c) refl)),
      )
