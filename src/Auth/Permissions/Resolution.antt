-- ===== src/Auth/Permissions/Resolution.antt =====
-- One fuel more than there are sets is enough, and what the recursion gathers is closed.
use routerbot.Base.{
  ℕ, zero, suc, ◌≤◌, ◌<◌, String, ◌≡◌, refl, Option, none, some, true, false, not, List, [], ◌∷◌,
  ◌++◌, arith, ◌⊎◌, inl, inr, contains, contains-In, lookup-keys, keys, lookup, string_eq, length,
  keep, keep-length_lt, length-keep-le, length-keys, keep-length_mono, In, In-append, Bool-cases,
  Option-cases, subst, sym, ◌∙◌, some_inj,
}
use routerbot.Auth.Permissions.{PermissionSet, Sets, Resolve, visit_all, visit, resolve}

-- A set reaches another through the names that it inherits from.
pub data Inherits (sets : Sets) : String → String → Type 0 where
  self : {a : String} → Inherits sets a a
  parent :
      {a b c : String} (ps : PermissionSet)
      → lookup a sets ≡ some ps
      → In b ps.inherit_from
      → Inherits sets b c
      → Inherits sets a c

-- Some set that the name reaches lists the permission.
abbrev pub Grants : Sets → String → String → Type 0
Grants sets a p =
    (s : String) × (ps : PermissionSet) × Inherits sets a s
    × (lookup s sets ≡ some ps)
    × In p ps.permissions

abbrev pub Within : List String → List String → Type 0
Within v w = (s : String) → In s v → In s w

module _ (sets : Sets) where
  abbrev pub unvisited : List String → ℕ
  unvisited v = length (keep (λ k. not (contains k v)) (keys sets))

  -- The set's own permissions and its parents' names have been gathered.
  pub record Expanded (s : String) (perms w : List String) : Type 0 where
    pub own : (ps : PermissionSet) → lookup s sets ≡ some ps → Within ps.permissions perms
    pub parents : (ps : PermissionSet) → lookup s sets ≡ some ps → Within ps.inherit_from w

  -- What a visit of `starts` does: from `acc` to `perms`, and from `v` to `w`.
  pub record Done (starts acc v perms w : List String) : Type 0 where
    pub grows : Within v w
    pub keeps : Within acc perms
    pub visits : Within starts w
    pub sound :
        (p : String) → In p perms → In p acc ⊎ ((s : String) × In s starts × Grants sets s p)
    pub closed : (s : String) → In s w → In s v ⊎ Expanded s perms w

  abbrev pub Result :
      List String → List String → List String → Option (List String × List String) → Type 0
  Result starts acc v r =
      (perms : List String) × (w : List String) × (r ≡ some (perms, w)) × Done starts acc v perms w

  pub unvisited-le : (v : List String) → unvisited v ≤ length sets
  unvisited-le v =
      omega
        (arith, length-keep-le (λ (k : String). not (contains k v)) (keys sets), length-keys sets)

  unvisited_mono : (v w : List String) → Within v w → unvisited w ≤ unvisited v
  unvisited_mono v w h =
      keep-length_mono (λ k. not (contains k v)) (λ k. not (contains k w))
        (λ a e. ground (arith, contains-In a v, contains-In a w, h a)) (keys sets)

  unvisited_lt :
      (name : String) (ps : PermissionSet) (v : List String)
      → lookup name sets ≡ some ps
      → contains name v ≡ false
      → unvisited (name ∷ v) < unvisited v
  unvisited_lt name ps v e f =
      keep-length_lt (λ k. not (contains k v)) (λ k. not (contains k (name ∷ v)))
        (λ a e. ground arith) name (keys sets) (lookup-keys name ps sets e) (rw f refl)
        (ground (arith, contains-In name (name ∷ v)))

  Expanded-mono :
      (s : String) (q perms v w : List String)
      → Within q perms
      → Within v w
      → Expanded s q v
      → Expanded s perms w
  Expanded-mono s q perms v w g h x = record {
    own = λ ps e t m. g t (x.own ps e t m);
    parents = λ ps e t m. h t (x.parents ps e t m);
  }

  -- A visit of one name and then of others.
  Done-cons :
      (p : String) (ps acc v q u perms w : List String)
      → Done (p ∷ []) [] v q u
      → Done ps (acc ++ q) u perms w
      → Done (p ∷ ps) acc v perms w
  Done-cons p ps acc v q u perms w a b = record {
    grows = λ s m. b.grows s (a.grows s m);
    keeps = λ s m. b.keeps s ((In-append s acc q).1 (inl m));
    visits = λ s m. elim m [ inl e ↦ b.grows s (a.visits s (inl e)) | inr m' ↦ b.visits s m' ];
    sound = λ t m. elim (b.sound t m) [
      | inl m' ↦ elim ((In-append t acc q).0 m') [
        | inl x ↦ inl x
        | inr y ↦ elim (a.sound t y) [
          | inl z ↦ elim z [ ]
          | inr (s, i, g) ↦ inr (s, elim i [ inl e ↦ inl e | inr z ↦ elim z [ ] ], g)
        ]
      ]
      | inr (s, i, g) ↦ inr (s, inr i, g)
    ];
    closed = λ s m. elim (b.closed s m) [
      | inl m' ↦ elim (a.closed s m') [
        | inl x ↦ inl x
        | inr x ↦ inr (
            Expanded-mono s q perms u w (λ t y. b.keeps t ((In-append t acc q).1 (inr y))) b.grows
              x)
      ]
      | inr x ↦ inr x
    ];
  }

  visit_all-Result :
      (fuel : ℕ) (rec : Resolve)
      → ((name : String) (v : List String)
          → unvisited v < fuel
          → Result (name ∷ []) [] v (rec name v))
      → (ps acc v : List String) → unvisited v < fuel
      → Result ps acc v (visit_all rec ps acc v)
  unfolding visit_all
  visit_all-Result fuel rec good [] acc v h = (
    acc,
    v,
    refl,
    record {
      grows = λ s m. m;
      keeps = λ s m. m;
      visits = λ s m. elim m [ ];
      sound = λ p m. inl m;
      closed = λ s m. inl m;
    },
  )
  visit_all-Result fuel rec good (p ∷ ps) acc v h =
      let (q, u, e, a) = good p v h in
      let (perms, w, e', b) =
        visit_all-Result fuel rec good ps (acc ++ q) u
          (omega (arith, unvisited_mono v u a.grows)) in
      (perms, w, rw (e, visit_all) e', Done-cons p ps acc v q u perms w a b)

  Expanded-found :
      (name : String) (ps : PermissionSet) (perms w : List String)
      → lookup name sets ≡ some ps
      → Within ps.permissions perms
      → Within ps.inherit_from w
      → Expanded name perms w
  Expanded-found name ps perms w e g h = record {
    own = λ qs f t x.
        g t (subst (λ (r : PermissionSet). In t r.permissions) (some_inj (sym f ∙ e)) x);
    parents = λ qs f t x.
        h t (subst (λ (r : PermissionSet). In t r.inherit_from) (some_inj (sym f ∙ e)) x);
  }

  -- A registered name whose parents have been visited.
  Done-found :
      (name : String) (ps : PermissionSet) (v perms w : List String)
      → lookup name sets ≡ some ps
      → Done ps.inherit_from ps.permissions (name ∷ v) perms w
      → Done (name ∷ []) [] v perms w
  Done-found name ps v perms w e d = record {
    grows = λ s m. d.grows s (inr m);
    keeps = λ s m. elim m [ ];
    visits = λ s m. elim m [ inl i ↦ d.grows s (inl i) | inr z ↦ elim z [ ] ];
    sound = λ p m. elim (d.sound p m) [
      | inl own ↦ inr (name, inl refl, (name, ps, self, e, own))
      | inr (s, i, (t, qs, r, f, x)) ↦ inr (name, inl refl, (t, qs, parent ps e i r, f, x))
    ];
    closed = λ s m. elim (d.closed s m) [
      | inl (inl i) ↦ inr (
          subst (λ n. Expanded n perms w) (sym i)
            (Expanded-found name ps perms w e d.keeps d.visits))
      | inl (inr m') ↦ inl m'
      | inr x ↦ inr x
    ];
  }

  -- A name that no set has.
  Done-missing :
      (name : String) (v : List String)
      → lookup name sets ≡ none
      → Done (name ∷ []) [] v [] (name ∷ v)
  Done-missing name v e = record {
    grows = λ s m. inr m;
    keeps = λ s m. m;
    visits = λ s m. elim m [ inl i ↦ inl i | inr z ↦ elim z [ ] ];
    sound = λ p m. inl m;
    closed = λ s m. elim m [
      | inl i ↦ inr (
          subst (λ n. Expanded n [] (name ∷ v)) (sym i)
            (record { own = λ ps f. cc; parents = λ ps f. cc }))
      | inr m' ↦ inl m'
    ];
  }

  Done-visited :
      (name : String) (v : List String) → contains name v ≡ true → Done (name ∷ []) [] v [] v
  Done-visited name v t = record {
    grows = λ s m. m;
    keeps = λ s m. m;
    visits = λ s m. elim m [
      | inl i ↦ subst (λ n. In n v) (sym i) ((contains-In name v).0 t)
      | inr z ↦ elim z [ ]
    ];
    sound = λ p m. inl m;
    closed = λ s m. inl m;
  }

  pub resolve-Result :
      (fuel : ℕ) (name : String) (v : List String)
      → unvisited v < fuel
      → Result (name ∷ []) [] v (resolve fuel sets name v)
  unfolding resolve visit
  resolve-Result zero name v h = absurd (omega arith)
  resolve-Result (suc fuel) name v h = elim (Bool-cases (contains name v)) [
    | inl t ↦ ([], v, rw (t, resolve) refl, Done-visited name v t)
    | inr f ↦ elim (Option-cases (lookup name sets)) [
      | inl e ↦ ([], name ∷ v, rw (f, resolve) (rw e refl), Done-missing name v e)
      | inr (ps, e) ↦
          let (perms, w, eq, d) =
            visit_all-Result fuel (resolve fuel sets) (resolve-Result fuel) ps.inherit_from
              ps.permissions (name ∷ v) (omega (arith, unvisited_lt name ps v e f)) in
          (perms, w, rw (f, resolve) (rw e eq), Done-found name ps v perms w e d)
    ]
  ]
