-- ===== src/Kalloc.antt =====
-- kalloc.c: the allocator of physical pages. The free pages form a linked list through their own
-- first words. The stretch between `acquire(&kmem.lock)` and `release` is one step here, so
-- `use_lock` only records which phase of the start-up the allocator is in.
pub mod Chain
pub mod Range
mod Examples
use operating_system.Common.{
  ℕ, zero, suc, ◌+◌, ◌-◌, ◌*◌, ◌/◌, ◌%◌, ◌^◌, ◌||◌, not, Bool, true, false, ltb, leb, ◌==◌,
  if◌then◌else◌, Result, ok, panic, ◌>>=◌,
}
use operating_system.Memory.{Memory, memset, store32, load32, ptr_add}

-- mmu.h, memlayout.h
abbrev pub page_size : ℕ
page_size = 4096

abbrev pub phys_top : ℕ
phys_top = 0xE00_0000

abbrev pub kern_base : ℕ
kern_base = 0x8000_0000

abbrev pub v2p : ℕ → ℕ
v2p a = (a + 2 ^ 32 - kern_base) % 2 ^ 32

-- `((sz)+PGSIZE-1) & ~(PGSIZE-1)` on 32 bits
abbrev pub page_round_up : ℕ → ℕ
page_round_up a = (a + (page_size - 1)) % 2 ^ 32 / page_size * page_size

-- `kmem`, with the memory that its list runs through
pub record Kmem : Type 0 where
  pub use_lock : Bool
  pub freelist : ℕ
  pub mem : Memory

-- `end` is where the linker ends the kernel's own image.
module _ (end : ℕ) where
  pub kfree : ℕ → Kmem → Result Kmem
  kfree v k =
      if not (v % page_size == 0) || ltb v end || leb phys_top (v2p v)
      then panic "kfree"
      else ok (record k { mem = store32 (memset v 1 page_size k.mem) v k.freelist; freelist = v })

  -- `for(; p + PGSIZE <= (char*)vend; p += PGSIZE) kfree(p);` with fuel
  pub free_loop : ℕ → ℕ → ℕ → Kmem → Result Kmem
  free_loop zero p vend k = panic "out of fuel"
  free_loop (suc f) p vend k = elim (leb (ptr_add p page_size) vend) [
    | true ↦ kfree p k >>= free_loop f (ptr_add p page_size) vend
    | false ↦ ok k
  ]

  pub freerange : ℕ → ℕ → Kmem → Result Kmem
  freerange vstart vend k = free_loop (vend / page_size + 1) (page_round_up vstart) vend k

  pub kinit1 : ℕ → ℕ → Kmem → Result Kmem
  kinit1 vstart vend k = freerange vstart vend (record k { use_lock = false })

  pub kinit2 : ℕ → ℕ → Kmem → Result Kmem
  kinit2 vstart vend k = freerange vstart vend k >>= λ k'. ok (record k' { use_lock = true })

-- The page, 0 if there is none.
pub kalloc : Kmem → ℕ × Kmem
kalloc k =
    if k.freelist == 0
    then (0, k)
    else (k.freelist, record k { freelist = load32 k.mem k.freelist })
