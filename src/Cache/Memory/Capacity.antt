-- ===== src/Cache/Memory/Capacity.antt =====
-- The cache never holds more than `max_size` entries, nor a key twice; what was stored is read back.
use routerbot.Base.{
  ℕ, ◌≤◌, ◌<◌, String, ◌≡◌, refl, Option, none, some, [], ◌∷◌, ◌++◌, arith, Dict, lookup, insert,
  remove, has, string_eq, lookup-remove, Distinct, insert-Distinct, remove-Distinct, ==-refl,
  length, length-append, inl, inr, Bool-cases, Option-cases,
}
use routerbot.Cache.Memory.{
  CacheEntry, InMemoryCacheBackend, is_expired, get, evict, stamped, set, delete, clear, Op, read,
  write, drop, wipe, apply,
}

module _ {V : Type 0} where
  pub length-remove-le : (k : String) (d : Dict String V) → length (remove k d) ≤ length d
  unfolding remove
  length-remove-le k [] = omega arith
  length-remove-le k ((j, v) ∷ d) = ground (arith, length-remove-le k d)

  -- A key that is found leaves room when it goes.
  pub length-remove-lt :
      (k : String) (d : Dict String V) (v : V)
      → lookup k d ≡ some v
      → length (remove k d) < length d
  unfolding remove lookup
  length-remove-lt k [] v e = cc
  length-remove-lt k ((j, w) ∷ d) v e = ground (arith, length-remove-lt k d v, length-remove-le k d)

  -- A new key goes to the end.
  pub insert_fresh :
      (k : String) (v : V) (d : Dict String V) → lookup k d ≡ none → insert k v d ≡ d ++ (k, v) ∷ []
  unfolding insert lookup
  insert_fresh k v [] e = refl
  insert_fresh k v ((j, w) ∷ d) e = ground (arith, insert_fresh k v d)

  pub remove_absent : (k : String) (d : Dict String V) → lookup k d ≡ none → remove k d ≡ d
  unfolding remove lookup
  remove_absent k [] e = refl
  remove_absent k ((j, w) ∷ d) e = ground (arith, remove_absent k d)

  pub lookup-remove_self : (k : String) (d : Dict String V) → lookup k (remove k d) ≡ none
  lookup-remove_self k d = rw (lookup-remove, ==-refl k) refl

  -- Moving a key to the end, or putting a new value there, is one insertion after a removal.
  pub renew :
      (k : String) (v : V) (d : Dict String V) → insert k v (remove k d) ≡ remove k d ++ (k, v) ∷ []
  renew k v d = insert_fresh k v (remove k d) (lookup-remove_self k d)

module _ {D : Type 0} where
  pub store-set :
      (now : ℕ) (key : String) (value : CacheEntry D) (ttl : Option ℕ) (c : InMemoryCacheBackend D)
      → (set now key value ttl c).store
        ≡ evict c.max_size (remove key c.store ++ (key, stamped now value ttl c) ∷ [])
  unfolding set has
  store-set now key value ttl c =
      ground (arith, renew key (stamped now value ttl c) c.store, remove_absent key c.store)

  length-evict-le : (n : ℕ) (d : Dict String (CacheEntry D)) → length (evict n d) ≤ n
  unfolding evict
  length-evict-le n [] = omega arith
  length-evict-le n (p ∷ d) = ground (arith, length-evict-le n d)

  evict-Distinct : (n : ℕ) (d : Dict String (CacheEntry D)) → Distinct d → Distinct (evict n d)
  unfolding evict
  evict-Distinct n [] h = tt
  evict-Distinct n (p ∷ d) h = ground (arith, evict-Distinct n d h.1)

  pub record IsValid (c : InMemoryCacheBackend D) : Type 0 where
    pub within : length c.store ≤ c.max_size
    pub distinct : Distinct c.store

  appended-Distinct :
      (k : String) (e : CacheEntry D) (d : Dict String (CacheEntry D))
      → Distinct d
      → Distinct (remove k d ++ (k, e) ∷ [])
  appended-Distinct k e d h =
      rw (← renew k e d) (insert-Distinct k e (remove k d) (remove-Distinct k d h))

  get-IsValid :
      (now : ℕ) (key : String) (c : InMemoryCacheBackend D) → IsValid c → IsValid (get now key c).1
  unfolding get
  get-IsValid now key c v = elim (Option-cases (lookup key c.store)) [
    | inl e ↦ rw (e, get) (record { within = v.within; distinct = v.distinct })
    | inr (x, e) ↦ elim (Bool-cases (is_expired now x)) [
      | inl t ↦
          rw (e, get)
            (rw t (record {
              within = omega (arith, length-remove-le key c.store, v.within);
              distinct = remove-Distinct key c.store v.distinct;
            }))
      | inr f ↦
          rw (e, get)
            (rw f (record {
              within = omega (
                arith,
                length-append (remove key c.store) ((key, x) ∷ []),
                length-remove-lt key c.store x e,
                v.within,
              );
              distinct = appended-Distinct key x c.store v.distinct;
            }))
    ]
  ]

  pub max_size-set :
      (now : ℕ) (key : String) (value : CacheEntry D) (ttl : Option ℕ) (c : InMemoryCacheBackend D)
      → (set now key value ttl c).max_size ≡ c.max_size
  unfolding set
  max_size-set now key value ttl c = refl

  set-IsValid :
      (now : ℕ) (key : String) (value : CacheEntry D) (ttl : Option ℕ) (c : InMemoryCacheBackend D)
      → IsValid c
      → IsValid (set now key value ttl c)
  set-IsValid now key value ttl c v = record {
    within = rw (store-set, max_size-set) (length-evict-le c.max_size _);
    distinct = rw store-set (
        evict-Distinct c.max_size _
          (appended-Distinct key (stamped now value ttl c) c.store v.distinct));
  }

  delete-IsValid : (key : String) (c : InMemoryCacheBackend D) → IsValid c → IsValid (delete key c)
  unfolding delete
  delete-IsValid key c v = record {
    within = omega (arith, length-remove-le key c.store, v.within);
    distinct = remove-Distinct key c.store v.distinct;
  }

  clear-IsValid : (c : InMemoryCacheBackend D) → IsValid (clear c)
  unfolding clear
  clear-IsValid c = record { within = omega arith; distinct = tt }

  -- Every operation keeps a cache within its size, with no key twice, that was so before.
  pub apply-IsValid : (c : InMemoryCacheBackend D) (op : Op D) → IsValid c → IsValid (apply c op)
  unfolding apply
  apply-IsValid c (read now key) v = get-IsValid now key c v
  apply-IsValid c (write now key value ttl) v = set-IsValid now key value ttl c v
  apply-IsValid c (drop key) v = delete-IsValid key c v
  apply-IsValid c wipe v = clear-IsValid c
