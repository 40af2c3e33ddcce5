-- ===== src/Proxy/RateLimit/Scopes.antt =====
-- The decision of check_rate_limit, as a conjunction over the scopes that apply.
use routerbot.Base.{
  ℕ, String, ◌≡◌, refl, sym, ◌∙◌, Option, none, some, Bool, true, false, not, ◌&&◌, arith, Dict,
  lookup-insert, string_eq, Bool-cases, inl, inr,
}
use routerbot.Proxy.RateScope.{
  RateLimitScope, global, key, user, team, model, RateLimitConfig, nothing_yet, WindowEntry,
  window_key_eq, InMemoryRateLimiter, window_at, check_scope, merge_tightest, prune, request_count,
  token_count, reached, scope_beq, WindowKey,
}
use routerbot.Proxy.RateLimit.{
  Progress, denied, so_far, outcome, next, next_given, given, config_for, Caller, check_rate_limit,
}

-- A scope has room: neither the requests nor the tokens of its window have reached their limits.
abbrev pub has_room : RateLimitScope → String → ℕ → InMemoryRateLimiter → Bool
has_room s identifier now l =
    let c = config_for s identifier l in
    let e = window_at (s, identifier) l in
    not (reached c.rpm (request_count l.minute now e))
    && not (reached c.tpm (token_count l.minute now e))

abbrev pub has_room_given : RateLimitScope → Option String → ℕ → InMemoryRateLimiter → Bool
has_room_given s none now l = true
has_room_given s (some identifier) now l = has_room s identifier now l

-- A check of scope `s` leaves alone what belongs to the other scopes, and every setting.
pub record Frame (s : RateLimitScope) (l l' : InMemoryRateLimiter) : Type 0 where
  pub same_minute : l'.minute ≡ l.minute
  pub same_config : (t : RateLimitScope) (i : String) → config_for t i l' ≡ config_for t i l
  pub same_window :
      (t : RateLimitScope) (i : String)
      → scope_beq s t ≡ false
      → window_at (t, i) l' ≡ window_at (t, i) l

pub Frame-refl : (s : RateLimitScope) (l : InMemoryRateLimiter) → Frame s l l
Frame-refl s l = record {
  same_minute = refl;
  same_config = λ t i. refl;
  same_window = λ t i h. refl;
}

config_for-windows :
    (t : RateLimitScope) (i : String) (l : InMemoryRateLimiter) (w : Dict WindowKey WindowEntry)
    → config_for t i (record l { windows = w }) ≡ config_for t i l
unfolding config_for
config_for-windows global i l w = refl
config_for-windows key i l w = refl
config_for-windows user i l w = refl
config_for-windows team i l w = refl
config_for-windows model i l w = refl

pub check_scope-Frame :
    (s : RateLimitScope) (i : String) (c : RateLimitConfig) (now : ℕ) (l : InMemoryRateLimiter)
    → Frame s l (check_scope s i c now l).1
unfolding check_scope
check_scope-Frame s i c now l = record {
  same_minute = refl;
  same_config = λ t j. config_for-windows t j l _;
  same_window = λ t j h.
      unfold window_at in
      ground
        (arith, lookup-insert (s, i) (t, j) (prune l.minute now (window_at (s, i) l)) l.windows);
}

abbrev pub is_open : Progress → Bool
is_open (denied r) = false
is_open (so_far r) = true

-- A denial says so, and what is not denied is allowed.
abbrev pub IsSound : Progress → Type 0
IsSound (denied r) = r.allowed ≡ false
IsSound (so_far r) = r.allowed ≡ true

check_scope-allowed :
    (s : RateLimitScope) (i : String) (now : ℕ) (l : InMemoryRateLimiter)
    → (check_scope s i (config_for s i l) now l).0.allowed ≡ has_room s i now l
unfolding check_scope request_count token_count
check_scope-allowed s i now l = ground arith

record IsNext (s : RateLimitScope) (i : String) (now : ℕ) (p q : Progress × InMemoryRateLimiter)
    : Type 0 where
  frame : Frame s p.1 q.1
  sound : IsSound q.0
  opens : is_open q.0 ≡ (is_open p.0 && has_room s i now p.1)

next-IsNext :
    (s : RateLimitScope) (i : String) (now : ℕ) (p : Progress) (l : InMemoryRateLimiter)
    → IsSound p
    → IsNext s i now (p, l) (next s i (config_for s i l) now (p, l))
next-IsNext s i now (denied r) l v = record { frame = Frame-refl s l; sound = v; opens = refl }
next-IsNext s i now (so_far r) l v =
    let f = check_scope-Frame s i (config_for s i l) now l in
    let a = check_scope-allowed s i now l in
    elim (Bool-cases (check_scope s i (config_for s i l) now l).0.allowed) [
      | inl t ↦ record {
        frame = f;
        sound = rw t (unfold merge_tightest in v);
        opens = rw t (sym t ∙ a);
      }
      | inr n ↦ record { frame = f; sound = ground arith; opens = rw n (sym n ∙ a) }
    ]

record IsNextGiven (s : RateLimitScope) (o : Option String) (now : ℕ)
    (p q : Progress × InMemoryRateLimiter) : Type 0 where
  frame : Frame s p.1 q.1
  sound : IsSound q.0
  opens : is_open q.0 ≡ (is_open p.0 && has_room_given s o now p.1)

next_given-IsNextGiven :
    (s : RateLimitScope) (o : Option String) (now : ℕ) (p : Progress × InMemoryRateLimiter)
    → IsSound p.0
    → IsNextGiven s o now p (next_given s o now p)
next_given-IsNextGiven s none now (p, l) v = record {
  frame = Frame-refl s l;
  sound = v;
  opens = ground arith;
}
next_given-IsNextGiven s (some i) now (p, l) v =
    let h = next-IsNext s i now p l v in
    record { frame = h.frame; sound = h.sound; opens = h.opens }

-- What a scope with room is, is not changed by a check of another scope.
has_room-Frame :
    (s t : RateLimitScope) (o : Option String) (now : ℕ) (l l' : InMemoryRateLimiter)
    → Frame s l l'
    → scope_beq s t ≡ false
    → has_room_given t o now l' ≡ has_room_given t o now l
has_room-Frame s t none now l l' f h = refl
has_room-Frame s t (some i) now l l' f h =
    ground (arith, f.same_minute, f.same_config t i, f.same_window t i h)

outcome_sound : (p : Progress) → IsSound p → (outcome p).allowed ≡ is_open p
outcome_sound (denied r) v = v
outcome_sound (so_far r) v = v

and_cong : {a b c d : Bool} → a ≡ b → c ≡ d → (a && c) ≡ (b && d)
and_cong p q = cc

and_assoc : (g m t k u : Bool) → ((((g && m) && t) && k) && u) ≡ (g && m && t && k && u)
and_assoc g m t k u = ground arith

-- A request is allowed exactly when every scope that applies to it has room in its own window:
-- the global one, and those of the model, the team, the key and the user that are given.
pub allowed-check_rate_limit :
    (now : ℕ) (c : Caller) (l : InMemoryRateLimiter)
    → (check_rate_limit now c l).0.allowed ≡ (
        has_room global "global" now l
        && has_room_given model (given c.model_name) now l
        && has_room_given team (given c.team_id) now l
        && has_room_given key (given c.key_id) now l
        && has_room_given user (given c.user_id) now l)
unfolding check_rate_limit
allowed-check_rate_limit now c l =
    let p₀ = next global "global" (config_for global "global" l) now (so_far nothing_yet, l) in
    let h₀ = next-IsNext global "global" now (so_far nothing_yet) l refl in
    let p₁ = next_given model (given c.model_name) now p₀ in
    let h₁ = next_given-IsNextGiven model (given c.model_name) now p₀ h₀.sound in
    let p₂ = next_given team (given c.team_id) now p₁ in
    let h₂ = next_given-IsNextGiven team (given c.team_id) now p₁ h₁.sound in
    let p₃ = next_given key (given c.key_id) now p₂ in
    let h₃ = next_given-IsNextGiven key (given c.key_id) now p₂ h₂.sound in
    let p₄ = next_given user (given c.user_id) now p₃ in
    let h₄ = next_given-IsNextGiven user (given c.user_id) now p₃ h₃.sound in
    let from₀ = λ (t : RateLimitScope) (o : Option String) (h : scope_beq global t ≡ false).
      has_room-Frame global t o now l p₀.1 h₀.frame h in
    let from₁ =
      λ (t : RateLimitScope) (o : Option String) (h : scope_beq model t ≡ false)
          (g : scope_beq global t ≡ false).
        has_room-Frame model t o now p₀.1 p₁.1 h₁.frame h ∙ from₀ t o g in
    let from₂ =
      λ (t : RateLimitScope) (o : Option String) (h : scope_beq team t ≡ false)
          (m : scope_beq model t ≡ false) (g : scope_beq global t ≡ false).
        has_room-Frame team t o now p₁.1 p₂.1 h₂.frame h ∙ from₁ t o m g in
    outcome_sound p₄.0 h₄.sound
    ∙ h₄.opens
    ∙ and_cong
        (h₃.opens
          ∙ and_cong
              (h₂.opens
                ∙ and_cong (h₁.opens ∙ and_cong h₀.opens (from₀ model (given c.model_name) refl))
                    (from₁ team (given c.team_id) refl refl))
              (from₂ key (given c.key_id) refl refl refl))
        (has_room-Frame key user (given c.user_id) now p₂.1 p₃.1 h₃.frame refl
          ∙ from₂ user (given c.user_id) refl refl refl)
    ∙ and_assoc (has_room global "global" now l) (has_room_given model (given c.model_name) now l)
        (has_room_given team (given c.team_id) now l) (has_room_given key (given c.key_id) now l)
        (has_room_given user (given c.user_id) now l)
