-- ===== src/Memory.antt =====
-- kernel-overlay/include/evl/memory.h: the heaps of the core. The allocator itself is not under the
-- repository's root: `alloc` stands for `evl_alloc_chunk`, `free` for `evl_free_chunk`. `page_size`
-- stands for the kernel's PAGE_SIZE.
use spacemit_xenomai.Base.{
  ℕ, ◌+◌, ◌-◌, ◌^◌, Option, none, some, List, ◌&&◌, ltb, leb, if◌then◌else◌, u32, u64,
}

abbrev pub heap_page_shift : ℕ
heap_page_shift = 9

abbrev pub heap_page_size : ℕ
heap_page_size = 2 ^ heap_page_shift

abbrev pub heap_page_mask : ℕ
heap_page_mask = 2 ^ 64 - 1 - (heap_page_size - 1)

abbrev pub heap_min_log2 : ℕ
heap_min_log2 = 4

abbrev pub heap_max_buckets : ℕ
heap_max_buckets = heap_page_shift - heap_min_log2

abbrev pub heap_min_align : ℕ
heap_min_align = 2 ^ heap_min_log2

abbrev pub heap_max_heapsz : ℕ → ℕ
heap_max_heapsz page_size = u64 (u64 (4294967295 + 2 ^ 64 - page_size) + 1)

abbrev pub heap_pgent_bits : ℕ
heap_pgent_bits = 32 - heap_page_shift

-- `struct evl_heap_pgentry`, its fields with their numbers of bits.
pub record HeapPgentry : Type 0 where
  pub prev : ℕ  -- heap_pgent_bits
  pub next : ℕ  -- heap_pgent_bits
  pub type : ℕ  -- 6 bits
  pub map_or_bsize : ℕ  -- u32

-- `struct evl_heap`, less its trees, its lock and its link. `pagemap` has an entry for each page.
pub record Heap : Type 0 where
  pub membase : ℕ
  pub pagemap : List HeapPgentry
  pub usable_size : ℕ  -- size_t
  pub used_size : ℕ  -- size_t
  pub buckets : List ℕ

unfoldable pub get_heap_size : Heap → ℕ
get_heap_size heap = heap.usable_size

unfoldable pub get_heap_free : Heap → ℕ
get_heap_free heap = u64 (heap.usable_size + 2 ^ 64 - heap.used_size)

unfoldable pub get_heap_base : Heap → ℕ
get_heap_base heap = heap.membase

-- An `int`, cut off from a difference of addresses.
unfoldable pub shared_offset : Heap → ℕ → ℕ
unfolding get_heap_base
shared_offset shared_heap p = u32 (u64 (p + 2 ^ 64 - get_heap_base shared_heap))

-- The machine has memory, a byte at each address, and the rest.
abbrev pub Bytes : Type 0
Bytes = ℕ → ℕ

abbrev pub memset : ℕ → ℕ → ℕ → Bytes → Bytes
memset p c size m a = if leb p a && ltb a (p + size) then c else m a

module _ {W : Type 0} (alloc : ℕ → W → Bytes → W × Bytes × Option ℕ) where
  -- The size is a `u32`, handed to `evl_alloc_chunk` as a `size_t`.
  unfoldable pub zalloc_chunk : ℕ → W → Bytes → W × Bytes × Option ℕ
  zalloc_chunk size w m =
      let (w', m', p) = alloc size w m in
      elim p [ none ↦ (w', m', none) | some a ↦ (w', memset a 0 size m', some a) ]

-- EVL_HEAP_PGMAP_BYTES, the size of an entry: two words of bit fields, since `next` does not fit beside
-- `prev`, and the word of the union.
abbrev pub heap_pgmap_bytes : ℕ
heap_pgmap_bytes = 12

-- `struct evl_heap_range`; the nodes of its two trees are addresses.
pub record HeapRange : Type 0 where
  pub addr_node : ℕ
  pub size_node : ℕ
  pub size : ℕ  -- size_t

-- The allocator of the heap at one address, here `evl_system_heap`.
module _ {W : Type 0} (system_heap : ℕ) where
  unfoldable pub evl_alloc : (ℕ → ℕ → W → W × Option ℕ) → ℕ → W → W × Option ℕ
  evl_alloc alloc_chunk size w = alloc_chunk system_heap size w

  unfoldable pub evl_free : (ℕ → ℕ → W → W) → ℕ → W → W
  evl_free free_chunk ptr w = free_chunk system_heap ptr w
