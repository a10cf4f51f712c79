-- ===== src/Element/Cache.antt =====
-- kernel-overlay/include/evl/cache.h: index caches. Entries, functions and names are addresses, and
-- so are the heads of the buckets; what defers the release of an entry is left out.
use spacemit_xenomai.Base.{ℕ, Bool, Option, List}

pub record CacheEntry : Type 0 where
  pub refcnt : ℕ  -- refcount_t
  pub next : Option ℕ
  pub cache : ℕ

-- The functions of a cache, on keys `K`.
pub record CacheOps (K : Type 0) : Type 0 where
  pub hash : K → ℕ
  pub eq : CacheEntry → K → Bool
  pub drop : CacheEntry → CacheEntry
  pub get_key : CacheEntry → K
  pub format_key : Option (CacheEntry → ℕ)

pub record HashTable : Type 0 where
  pub buckets : List (Option ℕ)
  pub shift : ℕ  -- unsigned int
  pub nr_entries : ℕ  -- int

pub record Cache (K : Type 0) : Type 0 where
  pub ops : CacheOps K
  pub lock : ℕ
  pub hash_table : HashTable
  pub init_shift : ℕ  -- size_t
  pub name : ℕ

-- `refcount_inc` is the kernel's.
unfoldable pub get_cache_entry : (ℕ → ℕ) → CacheEntry → CacheEntry
get_cache_entry refcount_inc entry = record entry { refcnt = refcount_inc entry.refcnt }

module _ {K W : Type 0} where
  -- `spin_lock_bh` and `spin_unlock_bh` are the kernel's.
  unfoldable pub lock_cache : (ℕ → W → W) → Cache K → W → W
  lock_cache spin_lock_bh cache w = spin_lock_bh cache.lock w

  unfoldable pub unlock_cache : (ℕ → W → W) → Cache K → W → W
  unlock_cache spin_unlock_bh cache w = spin_unlock_bh cache.lock w
