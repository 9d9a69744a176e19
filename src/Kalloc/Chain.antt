-- ===== src/Kalloc/Chain.antt =====
-- The free list of kalloc.c as the list of pages that it runs through.
use operating_system.Common.{
  ℕ, ◌+◌, ◌%◌, ◌^◌, ◌≤◌, ◌<◌, ◌≡◌, ◌≢◌, ◌⊎◌, refl, arith, ◌||◌, not, Bool, false, ltb, leb, ◌==◌,
  List, [], ◌∷◌, ok, panic, inl, inr, Bool-cases, ◌∙◌, ap, ◌↔◌,
}
use operating_system.Memory.{Memory, write, memset, store32, load32}
use operating_system.Memory.Fill.{
  filled, memset_lem, load32-store32, load32-store32_ne, load32-filled_ne,
}
use operating_system.Kalloc.{page_size, phys_top, kern_base, v2p, Kmem, kfree, kalloc}

abbrev pub listed : ℕ → List ℕ → Bool
listed v [] = false
listed v (q ∷ qs) = (v == q) || listed v qs

-- an address at which a page of the allocator may start
pub record IsPage (end v : ℕ) : Type 0 where
  pub aligned : v % page_size ≡ 0
  pub above : end ≤ v
  pub kernel : kern_base ≤ v
  pub below : v < kern_base + phys_top

-- a stack of pages, the specification of the free list: 0 stands for no page
unfoldable pub pop : List ℕ → ℕ × List ℕ
pop [] = (0, [])
pop (q ∷ qs) = (q, qs)

-- from `p` the list leads through the distinct pages `qs` to 0
abbrev pub Chain : ℕ → Memory → ℕ → List ℕ → Type 0
Chain end m p [] = p ≡ 0
Chain end m p (q ∷ qs) =
    (p ≡ q) × IsPage end q × (listed q qs ≡ false) × Chain end m (load32 m q) qs

abbrev pub Free : ℕ → Kmem → List ℕ → Type 0
Free end k qs = Chain end k.mem k.freelist qs

module _ (end : ℕ) where
  head-lt : (m : Memory) (p : ℕ) (qs : List ℕ) → Chain end m p qs → p < 2 ^ 32
  head-lt m p [] c = omega arith
  head-lt m p (q ∷ qs) c = omega arith

  -- what kfree does to memory
  abbrev freed : Memory → ℕ → ℕ → Memory
  freed m v next = store32 (memset v 1 page_size m) v next

  freed_self :
      (m : Memory) (v next : ℕ) → IsPage end v → next < 2 ^ 32 → load32 (freed m v next) v ≡ next
  freed_self m v next h lt = load32-store32 (memset v 1 page_size m) v next (omega arith) lt

  freed_other :
      (m : Memory) (v next q : ℕ)
      → IsPage end v
      → IsPage end q
      → v ≢ q
      → load32 (freed m v next) q ≡ load32 m q
  freed_other m v next q hv hq ne =
      load32-store32_ne (memset v 1 page_size m) v q next (omega arith) (omega arith) (omega arith)
      ∙ ap (λ (g : Memory). load32 g q) (memset_lem v 1 page_size m (omega arith))
      ∙ load32-filled_ne m v (1 % 256) page_size q (omega arith) (omega arith)

  Chain-freed :
      (m : Memory) (v next p : ℕ) (qs : List ℕ)
      → IsPage end v
      → listed v qs ≡ false
      → Chain end m p qs
      → Chain end (freed m v next) p qs
  Chain-freed m v next p [] hv out c = c
  Chain-freed m v next p (q ∷ qs) hv out (e, hq, fresh, rest) = (
    e,
    hq,
    fresh,
    rw (freed_other m v next q hv hq (ground arith))
        (Chain-freed m v next (load32 m q) qs hv (ground arith) rest),
  )

  -- what kfree leaves of memory: junk in the page behind its link, and all else as it was
  abbrev pub OnlyPage : ℕ → Memory → Memory → Type 0
  OnlyPage v m m' =
      (a : ℕ)
      → ((v + 4 ≤ a) → (a < v + page_size) → m' a ≡ 1)
        × ((a < v) ⊎ (v + page_size ≤ a) → m' a ≡ m a)

  freed-OnlyPage : (m : Memory) (v next : ℕ) → IsPage end v → OnlyPage v m (freed m v next)
  freed-OnlyPage m v next h a =
      rw (memset_lem v 1 page_size m (omega arith))
        (unfold store32 write filled in (λ lo hi. ground arith, λ out. ground arith))

  -- A page that is not free yet goes to the front of the free list; outside of it memory stays.
  pub kfree-Free :
      (k : Kmem) (v : ℕ) (qs : List ℕ)
      → IsPage end v
      → listed v qs ≡ false
      → Free end k qs
      → (k' : Kmem) × (kfree end v k ≡ ok k') × Free end k' (v ∷ qs) × OnlyPage v k.mem k'.mem
  unfolding kfree
  kfree-Free k v qs hv out c = (
    record k { mem = freed k.mem v k.freelist; freelist = v },
    ground arith,
    (
      refl,
      hv,
      out,
      rw (freed_self k.mem v k.freelist hv (head-lt k.mem k.freelist qs c))
          (Chain-freed k.mem v k.freelist k.freelist qs hv out c),
    ),
    freed-OnlyPage k.mem v k.freelist hv,
  )

  -- kfree accepts exactly the addresses of pages, and panics at any other.
  pub kfree-panic_iff :
      (k : Kmem) (v : ℕ) → v < 2 ^ 32 → (kfree end v k ≡ panic "kfree") ↔ (¬ IsPage end v)
  unfolding kfree
  kfree-panic_iff k v lt = (
    λ e page. ground arith,
    λ no_page. elim (Bool-cases (not (v % page_size == 0) || ltb v end || leb phys_top (v2p v))) [
      | inl bad ↦ rw bad
      | inr fine ↦ absurd (
          no_page (record {
            aligned = ground arith;
            above = ground arith;
            kernel = ground arith;
            below = ground arith;
          }))
    ],
  )

  -- kalloc pops the list of free pages, gives 0 only if it is empty, and writes nothing.
  pub kalloc-Free :
      (k : Kmem) (qs : List ℕ)
      → Free end k qs
      → ((kalloc k).0 ≡ (pop qs).0) × Free end (kalloc k).1 (pop qs).1 × ((kalloc k).1.mem ≡ k.mem)
  unfolding kalloc pop
  kalloc-Free k [] c = ground arith
  kalloc-Free k (q ∷ qs) (e, page, fresh, rest) =
      let found : (k.freelist == 0) ≡ false = ground arith in
      (rw found e, rw (found, e) rest, rw found)
