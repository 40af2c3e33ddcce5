-- ===== src/Cache/Backend/Memory.antt =====
-- The in-memory cache is a lawful backend, when it has room for an entry.
use routerbot.Base.{
  ℕ, ◌<◌, ◌≡◌, ◌≢◌, ◌⊎◌, inl, inr, refl, ap, sym, ◌∙◌, String, Option, none, some, [], ◌∷◌, arith,
  Dict, lookup, insert, remove, string_eq, ◌==◌, ==-false, lookup-insert, lookup-remove, Distinct,
  insert-Distinct, remove-Distinct, if◌then◌else◌, eq_iff,
}
use routerbot.Cache.Memory.{
  CacheEntry, InMemoryCacheBackend, is_expired, get, evict, set, delete, clear, stamped, write,
  apply,
}
use routerbot.Cache.Memory.Capacity.{IsValid, apply-IsValid, store-set, renew, max_size-set}
use routerbot.Cache.Memory.Recency.{get-set}
use routerbot.Cache.Backend.{CacheBackend, IsLawful, IsStamped}

module _ {D : Type 0} where
  -- What a reader sees of the entry that is found.
  abbrev visible : ℕ → Option (CacheEntry D) → Option (CacheEntry D)
  visible now none = none
  visible now (some e) = if is_expired now e then none else some e

  get_visible :
      (now : ℕ) (key : String) (c : InMemoryCacheBackend D)
      → (get now key c).0 ≡ visible now (lookup key c.store)
  unfolding get
  get_visible now key c = ground arith

  -- What eviction leaves of a key is nothing or what was there.
  lookup-evict :
      (n : ℕ) (k : String) (d : Dict String (CacheEntry D))
      → Distinct d
      → (lookup k (evict n d) ≡ none) ⊎ (lookup k (evict n d) ≡ lookup k d)
  unfolding evict lookup
  lookup-evict n k [] h = inr refl
  lookup-evict n k ((j, e) ∷ d) h = ground (arith, eq_iff j k, lookup-evict n k d h.1)

  stamped_self :
      (now : ℕ) (e : CacheEntry D) (ttl : Option ℕ) (c : InMemoryCacheBackend D)
      → IsStamped now ttl e
      → stamped now e ttl c ≡ e
  stamped_self now e ttl c h = let (t, p, q) = h.lifetime in ground (arith, h.created)

  -- A cache within its size, with room for an entry.
  pub record Ready (c : InMemoryCacheBackend D) : Type 0 where
    pub valid : IsValid c
    pub room : 0 < c.max_size

  visible-get-set_other :
      (now later : ℕ) (key other : String) (e : CacheEntry D) (ttl : Option ℕ)
      (c : InMemoryCacheBackend D)
      → Ready c
      → key ≢ other
      → ((get later other (set now key e ttl c)).0 ≡ none)
        ⊎ ((get later other (set now key e ttl c)).0 ≡ (get later other c).0)
  visible-get-set_other now later key other e ttl c r ne =
      let new = stamped now e ttl c in
      let d = insert key new (remove key c.store) in
      let same : lookup other d ≡ lookup other c.store =
        rw (lookup-insert key other new (remove key c.store), lookup-remove key other c.store)
          (rw (==-false key other ne) refl) in
      let stored : (set now key e ttl c).store ≡ evict c.max_size d =
        store-set now key e ttl c ∙ ap (evict c.max_size) (sym (renew key new c.store)) in
      elim (lookup-evict c.max_size other d (
        insert-Distinct key new (remove key c.store)
          (remove-Distinct key c.store r.valid.distinct))) [
            | inl gone ↦ inl (get_visible later other _ ∙ rw (stored, gone) refl)
            | inr kept ↦ inr (
                get_visible later other _
                ∙ rw (stored, kept, same) (sym (get_visible later other c)))
          ]

  get-delete_lem :
      (later : ℕ) (key other : String) (c : InMemoryCacheBackend D)
      → (get later other (delete key c)).0 ≡ (if key == other then none else (get later other c).0)
  get-delete_lem later key other c =
      rw (get_visible later other (delete key c), get_visible later other c)
        (unfold delete in ground (arith, lookup-remove key other c.store))

  get-clear_lem :
      (later : ℕ) (key : String) (c : InMemoryCacheBackend D) → (get later key (clear c)).0 ≡ none
  unfolding get clear lookup
  get-clear_lem later key c = refl

  set-Ready_lem :
      (now : ℕ) (key : String) (e : CacheEntry D) (ttl : Option ℕ) (c : InMemoryCacheBackend D)
      → Ready c
      → Ready (set now key e ttl c)
  set-Ready_lem now key e ttl c r = record {
    valid = unfold apply in apply-IsValid c (write now key e ttl) r.valid;
    room = rw (max_size-set now key e ttl c) r.room;
  }

  get-set_lem :
      (now later : ℕ) (key : String) (e : CacheEntry D) (ttl : Option ℕ)
      (c : InMemoryCacheBackend D)
      → Ready c
      → IsStamped now ttl e
      → (get later key (set now key e ttl c)).0 ≡ (if is_expired later e then none else some e)
  get-set_lem now later key e ttl c r h =
      get-set now later key e ttl c r.valid r.room ∙ rw (stamped_self now e ttl c h) refl

  abbrev pub memory_backend : CacheBackend D (InMemoryCacheBackend D)
  memory_backend = record { get = get; set = set; delete = delete; clear = clear }

  -- The in-memory cache, within its size and with room for an entry, is what the users of a backend
  -- rely on: what is stored is read until it expires; storing under one key leaves another's entry
  -- or drops it; deleting removes that key alone; and clearing removes all.
  pub memory-IsLawful : IsLawful memory_backend Ready
  memory-IsLawful = record {
    get-set = get-set_lem;
    get-set_other = visible-get-set_other;
    get-delete = get-delete_lem;
    get-clear = get-clear_lem;
    set-Ready = set-Ready_lem;
  }
