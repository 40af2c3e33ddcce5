-- ===== src/Cache/Memory/Recency.antt =====
-- Least recently used entries go first: what was stored survives while fewer than `max_size`
-- operations on other keys follow.
use routerbot.Base.{
  ℕ, suc, ◌+◌, ◌≤◌, ◌<◌, String, ◌≡◌, ◌≢◌, refl, ap, ◌∙◌, Option, none, some, List, [], ◌∷◌, ◌++◌,
  arith, Dict, lookup, remove, string_eq, ==-refl, ltb, if◌then◌else◌, length, length-append, inl,
  inr, Bool-cases, Option-cases, eq_iff, append_assoc, All, Distinct, subst,
}
use routerbot.Cache.Memory.{
  CacheEntry, InMemoryCacheBackend, is_expired, get, evict, stamped, set, delete, clear, Op, read,
  write, drop, wipe, apply, run,
}
use routerbot.Cache.Memory.Capacity.{
  IsValid, apply-IsValid, store-set, max_size-set, length-remove-le, remove_absent,
}

module _ {D : Type 0} where
  -- The key holds this entry, with at most `n` entries used after it.
  pub record Recent (k : String) (e : CacheEntry D) (n : ℕ) (d : Dict String (CacheEntry D))
      : Type 0 where
    pub older : Dict String (CacheEntry D)
    pub newer : Dict String (CacheEntry D)
    pub split : d ≡ older ++ (k, e) ∷ newer
    pub few : length newer ≤ n

  remove-split :
      (j k : String) (e : CacheEntry D) (xs ys : Dict String (CacheEntry D))
      → j ≢ k
      → remove j (xs ++ (k, e) ∷ ys) ≡ remove j xs ++ (k, e) ∷ remove j ys
  unfolding remove
  remove-split j k e [] ys h = ground (arith, eq_iff k j)
  remove-split j k e ((i, x) ∷ xs) ys h = ground (arith, remove-split j k e xs ys h)

  Recent-remove :
      (j k : String) (e : CacheEntry D) (n : ℕ) (d : Dict String (CacheEntry D))
      → j ≢ k
      → Recent k e n d
      → Recent k e n (remove j d)
  Recent-remove j k e n d h r = record {
    older = remove j r.older;
    newer = remove j r.newer;
    split = rw (r.split) (remove-split j k e r.older r.newer h);
    few = omega (arith, length-remove-le j r.newer, r.few);
  }

  Recent-append :
      (k : String) (e : CacheEntry D) (n : ℕ) (d : Dict String (CacheEntry D))
      (p : String × CacheEntry D)
      → Recent k e n d
      → Recent k e (n + 1) (d ++ p ∷ [])
  Recent-append k e n d p r = record {
    older = r.older;
    newer = r.newer ++ p ∷ [];
    split = rw (r.split) (append_assoc r.older ((k, e) ∷ r.newer) (p ∷ []));
    few = omega (arith, length-append r.newer (p ∷ []), r.few);
  }

  evict_short : (m : ℕ) (ys : Dict String (CacheEntry D)) → length ys ≤ m → evict m ys ≡ ys
  unfolding evict
  evict_short m [] h = refl
  evict_short m (p ∷ ys) h = ground arith

  evict_front :
      (m : ℕ) (xs ys : Dict String (CacheEntry D))
      → length ys ≤ m
      → (zs : Dict String (CacheEntry D)) × (evict m (xs ++ ys) ≡ zs ++ ys)
  unfolding evict
  evict_front m [] ys h = ([], evict_short m ys h)
  evict_front m (x ∷ xs) ys h = elim (Bool-cases (ltb m (suc (length (xs ++ ys))))) [
    | inl t ↦ let (zs, e) = evict_front m xs ys h in (zs, rw (t, evict) e)
    | inr f ↦ (x ∷ xs, rw (f, evict) refl)
  ]

  Recent-evict :
      (m : ℕ) (k : String) (e : CacheEntry D) (n : ℕ) (d : Dict String (CacheEntry D))
      → n < m
      → Recent k e n d
      → Recent k e n (evict m d)
  Recent-evict m k e n d h r =
      let (zs, q) = evict_front m r.older ((k, e) ∷ r.newer) (omega (arith, r.few)) in
      record { older = zs; newer = r.newer; split = rw (r.split) q; few = r.few }

  lookup_split :
      (k : String) (e : CacheEntry D) (xs ys : Dict String (CacheEntry D))
      → Distinct (xs ++ (k, e) ∷ ys)
      → lookup k (xs ++ (k, e) ∷ ys) ≡ some e
  unfolding lookup
  lookup_split k e [] ys h = ground (arith, ==-refl k)
  lookup_split k e ((i, x) ∷ xs) ys h = ground (arith, eq_iff i k, lookup_split k e xs ys h.1)

  Recent-lookup :
      (k : String) (e : CacheEntry D) (n : ℕ) (d : Dict String (CacheEntry D))
      → Distinct d
      → Recent k e n d
      → lookup k d ≡ some e
  Recent-lookup k e n d v r =
      rw (r.split) (lookup_split k e r.older r.newer (subst Distinct r.split v))

  -- Which key an operation is about, if it is about one.
  abbrev pub Spares : String → Op D → Type 0
  Spares k (read now key) = key ≢ k
  Spares k (write now key value ttl) = key ≢ k
  Spares k (drop key) = key ≢ k
  Spares k wipe = ⊥

  Recent-more :
      (k : String) (e : CacheEntry D) (n : ℕ) (d : Dict String (CacheEntry D))
      → Recent k e n d
      → Recent k e (n + 1) d
  Recent-more k e n d r = record {
    older = r.older;
    newer = r.newer;
    split = r.split;
    few = omega (arith, r.few);
  }

  get-Recent :
      (now : ℕ) (key k : String) (e : CacheEntry D) (n : ℕ) (c : InMemoryCacheBackend D)
      → key ≢ k
      → Recent k e n c.store
      → Recent k e (n + 1) (get now key c).1.store
  unfolding get
  get-Recent now key k e n c h r = elim (Option-cases (lookup key c.store)) [
    | inl q ↦ rw (q, get) (Recent-more k e n c.store r)
    | inr (x, q) ↦ elim (Bool-cases (is_expired now x)) [
      | inl t ↦ rw (q, get) (rw t (Recent-more k e n _ (Recent-remove key k e n c.store h r)))
      | inr f ↦
          rw (q, get) (rw f (Recent-append k e n _ (key, x) (Recent-remove key k e n c.store h r)))
    ]
  ]

  set-Recent :
      (now : ℕ) (key k : String) (value : CacheEntry D) (ttl : Option ℕ) (e : CacheEntry D) (n : ℕ)
      (c : InMemoryCacheBackend D)
      → key ≢ k
      → n + 1 < c.max_size
      → Recent k e n c.store
      → Recent k e (n + 1) (set now key value ttl c).store
  set-Recent now key k value ttl e n c h fits r = rw store-set (
      Recent-evict c.max_size k e (n + 1) _ fits (
        Recent-append k e n _ (key, stamped now value ttl c) (Recent-remove key k e n c.store h r)))

  apply-Recent :
      (op : Op D) (k : String) (e : CacheEntry D) (n : ℕ) (c : InMemoryCacheBackend D)
      → Spares k op
      → n + 1 < c.max_size
      → Recent k e n c.store
      → Recent k e (n + 1) (apply c op).store
  unfolding apply
  apply-Recent (read now key) k e n c h fits r = get-Recent now key k e n c h r
  apply-Recent (write now key value ttl) k e n c h fits r =
      set-Recent now key k value ttl e n c h fits r
  apply-Recent (drop key) k e n c h fits r =
      unfold delete in Recent-more k e n _ (Recent-remove key k e n c.store h r)
  apply-Recent wipe k e n c h fits r = absurd h

  max_size-apply : (c : InMemoryCacheBackend D) (op : Op D) → (apply c op).max_size ≡ c.max_size
  unfolding apply get delete clear
  max_size-apply c (read now key) = ground arith
  max_size-apply c (write now key value ttl) = max_size-set now key value ttl c
  max_size-apply c (drop key) = refl
  max_size-apply c wipe = refl

  run-Recent :
      (k : String) (e : CacheEntry D) (n : ℕ) (c : InMemoryCacheBackend D) (ops : List (Op D))
      → IsValid c
      → All (Spares k) ops
      → n + length ops < c.max_size
      → Recent k e n c.store
      → lookup k (run c ops).store ≡ some e
  unfolding run
  run-Recent k e n c [] v spared short r = Recent-lookup k e n c.store v.distinct r
  run-Recent k e n c (op ∷ ops) v spared short r =
      run-Recent k e (n + 1) (apply c op) ops (apply-IsValid c op v) spared.1
        (omega (arith, max_size-apply c op)) (apply-Recent op k e n c spared.0 (omega arith) r)

  set-Recent_self :
      (now : ℕ) (k : String) (value : CacheEntry D) (ttl : Option ℕ) (c : InMemoryCacheBackend D)
      → 0 < c.max_size
      → Recent k (stamped now value ttl c) 0 (set now k value ttl c).store
  set-Recent_self now k value ttl c room = rw store-set (
      Recent-evict c.max_size k (stamped now value ttl c) 0 _ room
        (record { older = remove k c.store; newer = []; split = refl; few = omega arith }))

  -- After an entry is stored in a valid cache, it is still there after fewer than `max_size` operations on
  -- other keys, reads, writes and deletions in any order.
  pub lookup-run :
      (now : ℕ) (k : String) (value : CacheEntry D) (ttl : Option ℕ) (c : InMemoryCacheBackend D)
      (ops : List (Op D))
      → IsValid c
      → All (Spares k) ops
      → length ops < c.max_size
      → lookup k (run (set now k value ttl c) ops).store ≡ some (stamped now value ttl c)
  lookup-run now k value ttl c ops v spared short =
      run-Recent k (stamped now value ttl c) 0 (set now k value ttl c) ops
        (unfold apply in apply-IsValid c (write now k value ttl) v) spared
        (omega (arith, max_size-set now k value ttl c))
        (set-Recent_self now k value ttl c (omega arith))

  -- An entry stored in a valid cache of some size is returned as stored until its time to live, the one given or the default, has
  -- passed since it was created, and then no more.
  pub get-set :
      (now later : ℕ) (k : String) (value : CacheEntry D) (ttl : Option ℕ)
      (c : InMemoryCacheBackend D)
      → IsValid c
      → 0 < c.max_size
      → (get later k (set now k value ttl c)).0 ≡ (
          if is_expired later (stamped now value ttl c)
          then none
          else some (stamped now value ttl c))
  unfolding get run
  get-set now later k value ttl c v room =
      let e = lookup-run now k value ttl c [] v tt room in rw e (ground arith)

  -- A new key in a full cache takes the place of the entry that was used longest ago.
  pub set_full :
      (now : ℕ) (k j : String) (value old : CacheEntry D) (ttl : Option ℕ)
      (rest : Dict String (CacheEntry D)) (c : InMemoryCacheBackend D)
      → c.store ≡ (j, old) ∷ rest
      → length c.store ≡ c.max_size
      → lookup k c.store ≡ none
      → (set now k value ttl c).store ≡ rest ++ (k, stamped now value ttl c) ∷ []
  unfolding evict
  set_full now k j value old ttl rest c e full new =
      let last : Dict String (CacheEntry D) = (k, stamped now value ttl c) ∷ [] in
      store-set now k value ttl c
      ∙ rw (remove_absent k c.store new, e)
          (ground
            (arith, ap length e, length-append rest last, evict_short c.max_size (rest ++ last)))
