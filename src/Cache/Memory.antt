-- ===== src/Cache/Memory.antt =====
-- src/routerbot/cache/memory.py, and CacheEntry of cache/base.py. The OrderedDict is the list of its
-- entries, least recently used first; time.time() is the argument `now`, a natural number. Entries
-- are values: that a caller may go on to change an entry that it stored is not modelled.
pub mod Capacity
pub mod Recency
mod Examples
use routerbot.Base.{
  ℕ, suc, ◌+◌, String, Option, none, some, Bool, true, false, List, [], ◌∷◌, ◌++◌, Dict, lookup,
  insert, remove, has, string_eq, ltb, eqb, if◌then◌else◌, length,
}

pub record CacheEntry (D : Type 0) : Type 0 where
  pub key : String
  pub response_data : D
  pub model : String
  pub created_at : ℕ
  pub ttl : Option ℕ
  pub metadata : D

-- CacheEntry.is_expired
unfoldable pub is_expired : {D : Type 0} → ℕ → CacheEntry D → Bool
is_expired now e = elim e.ttl [ none ↦ false | some ttl ↦ ltb (e.created_at + ttl) now ]

pub record InMemoryCacheBackend (D : Type 0) : Type 0 where
  pub max_size : ℕ
  pub default_ttl : Option ℕ
  pub namespace : String
  pub store : Dict String (CacheEntry D)
  pub hits : ℕ
  pub misses : ℕ

-- ttl if ttl is not None else self._default_ttl
abbrev pub or_default : Option ℕ → Option ℕ → Option ℕ
or_default none d = d
or_default (some t) d = some t

module _ {D : Type 0} where
  -- InMemoryCacheBackend.__init__
  unfoldable pub init : ℕ → Option ℕ → String → InMemoryCacheBackend D
  init max_size default_ttl namespace = record {
    max_size = max_size;
    default_ttl = default_ttl;
    namespace = namespace;
    store = [];
    hits = 0;
    misses = 0;
  }

  abbrev found :
      ℕ
      → String
      → Option (CacheEntry D)
      → InMemoryCacheBackend D
      → Option (CacheEntry D) × InMemoryCacheBackend D
  found now key none c = (none, record c { misses = c.misses + 1 })
  found now key (some entry) c =
      if is_expired now entry
      then (none, record c { store = remove key c.store; misses = c.misses + 1 })
      else (
        some entry,
        record c { store = remove key c.store ++ (key, entry) ∷ []; hits = c.hits + 1 },
      )

  unfoldable pub get :
      ℕ → String → InMemoryCacheBackend D → Option (CacheEntry D) × InMemoryCacheBackend D
  get now key c = found now key (lookup key c.store) c

  -- popitem(last=False) while the store is too long
  unfoldable pub evict : ℕ → Dict String (CacheEntry D) → Dict String (CacheEntry D)
  evict max_size [] = []
  evict max_size (p ∷ store) =
      if ltb max_size (length (p ∷ store)) then evict max_size store else p ∷ store

  -- The entry as `set` stores it.
  abbrev pub stamped : ℕ → CacheEntry D → Option ℕ → InMemoryCacheBackend D → CacheEntry D
  stamped now value ttl c = record value {
    ttl = or_default ttl c.default_ttl;
    created_at = (if eqb value.created_at 0 then now else value.created_at);
  }

  unfoldable pub set :
      ℕ → String → CacheEntry D → Option ℕ → InMemoryCacheBackend D → InMemoryCacheBackend D
  unfolding evict
  set now key value ttl c =
      let store = (if has key c.store then remove key c.store else c.store) in
      record c { store = evict c.max_size (insert key (stamped now value ttl c) store) }

  unfoldable pub delete : String → InMemoryCacheBackend D → InMemoryCacheBackend D
  delete key c = record c { store = remove key c.store }

  unfoldable pub clear : InMemoryCacheBackend D → InMemoryCacheBackend D
  clear c = record c { store = []; hits = 0; misses = 0 }

  unfoldable pub size : InMemoryCacheBackend D → ℕ
  size c = length c.store

pub data Op (D : Type 0) : Type 0 where
  read : ℕ → String → Op D
  write : ℕ → String → CacheEntry D → Option ℕ → Op D
  drop : String → Op D
  wipe : Op D

module _ {D : Type 0} where
  unfoldable pub apply : InMemoryCacheBackend D → Op D → InMemoryCacheBackend D
  unfolding get set delete clear
  apply c (read now key) = (get now key c).1
  apply c (write now key value ttl) = set now key value ttl c
  apply c (drop key) = delete key c
  apply c wipe = clear c

  unfoldable pub run : InMemoryCacheBackend D → List (Op D) → InMemoryCacheBackend D
  run c [] = c
  run c (op ∷ ops) = run (apply c op) ops
