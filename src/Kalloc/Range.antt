-- ===== src/Kalloc/Range.antt =====
-- freerange of kalloc.c frees every whole page of its range.
use operating_system.Common.{
  ℕ, zero, suc, ◌+◌, ◌-◌, ◌*◌, ◌/◌, ◌%◌, ◌≤◌, ◌<◌, ◌≡◌, ◌∙◌, ap, ◌⊎◌, refl, arith, true, false, leb,
  List, [], ◌∷◌, ok,
}
use operating_system.Memory.{ptr_add}
use operating_system.Kalloc.{
  page_size, phys_top, kern_base, page_round_up, Kmem, kfree, free_loop, freerange,
}
use operating_system.Kalloc.Chain.{IsPage, listed, Free, kfree-Free}

-- `n` pages from `p` on, freed in this order: the last one comes to the front
unfoldable pub push_pages : ℕ → ℕ → List ℕ → List ℕ
push_pages p zero qs = qs
push_pages p (suc n) qs = push_pages (p + page_size) n (p ∷ qs)

-- no page of `qs` begins in the range
abbrev pub Outside : ℕ → ℕ → List ℕ → Type 0
Outside lo hi [] = Unit {0}
Outside lo hi (q ∷ qs) = ((q < lo) ⊎ (hi ≤ q)) × Outside lo hi qs

Outside-listed :
    (lo hi v : ℕ) (qs : List ℕ) → lo ≤ v → v < hi → Outside lo hi qs → listed v qs ≡ false
Outside-listed lo hi v [] l h o = refl
Outside-listed lo hi v (q ∷ qs) l h o = ground (arith, Outside-listed lo hi v qs l h o.1)

Outside-mono : (lo lo' hi : ℕ) (qs : List ℕ) → lo ≤ lo' → Outside lo hi qs → Outside lo' hi qs
Outside-mono lo lo' hi [] l o = tt
Outside-mono lo lo' hi (q ∷ qs) l o = (omega arith, Outside-mono lo lo' hi qs l o.1)

module _ (end : ℕ) where
  free_loop_step :
      (f p p' vend : ℕ) (k k1 : Kmem)
      → leb (ptr_add p page_size) vend ≡ true
      → ptr_add p page_size ≡ p'
      → kfree end p k ≡ ok k1
      → free_loop end (suc f) p vend k ≡ free_loop end f p' vend k1
  unfolding free_loop
  free_loop_step f p p' vend k k1 fits e freed =
      rw (fits, free_loop) (rw freed (ap (λ (x : ℕ). free_loop end f x vend k1) e))

  free_loop_lem :
      (f n p vend : ℕ) (k : Kmem) (qs : List ℕ)
      → n < f
      → p % page_size ≡ 0
      → end ≤ p
      → kern_base ≤ p
      → vend ≤ kern_base + phys_top
      → p + n * page_size ≤ vend
      → vend < p + n * page_size + page_size
      → Outside p vend qs
      → Free end k qs
      → (k' : Kmem) × (free_loop end f p vend k ≡ ok k') × Free end k' (push_pages p n qs)
  unfolding free_loop push_pages
  free_loop_lem zero n p vend k qs lt al hend hk hv lo hi out c = absurd (omega arith)
  free_loop_lem (suc f) zero p vend k qs lt al hend hk hv lo hi out c =
      let over : leb (ptr_add p page_size) vend ≡ false = ground arith in
      (k, rw (over, free_loop), c)
  free_loop_lem (suc f) (suc n) p vend k qs lt al hend hk hv lo hi out c =
      let p' : ptr_add p page_size ≡ p + page_size = omega arith in
      let fits : leb (ptr_add p page_size) vend ≡ true = ground arith in
      let page : IsPage end p = record {
        aligned = al;
        above = hend;
        kernel = hk;
        below = omega arith;
      } in
      let (k1, e1, c1, _) =
        kfree-Free end k p qs page (Outside-listed p vend p qs (omega arith) (omega arith) out) c in
      let (k2, e2, c2) =
        free_loop_lem f n (p + page_size) vend k1 (p ∷ qs) (omega arith) (omega arith) (omega arith)
          (omega arith) hv (omega arith) (omega arith)
          (omega arith, Outside-mono p (p + page_size) vend qs (omega arith) out) c1 in
      (k2, free_loop_step f p (p + page_size) vend k k1 fits p' e1 ∙ e2, c2)

  -- the pages that lie wholly in the range
  abbrev pub whole_pages : ℕ → ℕ → ℕ
  whole_pages vstart vend = (vend - page_round_up vstart) / page_size

  -- freerange frees every whole page of a range in the kernel's part of physical memory.
  pub freerange-Free :
      (vstart vend : ℕ) (k : Kmem) (qs : List ℕ)
      → end ≤ vstart
      → kern_base ≤ vstart
      → vend ≤ kern_base + phys_top
      → vstart ≤ vend
      → page_round_up vstart ≤ vend
      → Outside (page_round_up vstart) vend qs
      → Free end k qs
      → (k' : Kmem) × (freerange end vstart vend k ≡ ok k')
        × Free end k' (push_pages (page_round_up vstart) (whole_pages vstart vend) qs)
  unfolding freerange
  freerange-Free vstart vend k qs hend hk hv le lo out c =
      free_loop_lem (vend / page_size + 1) (whole_pages vstart vend) (page_round_up vstart) vend k
        qs (omega arith) (omega arith) (omega arith) (omega arith) hv (omega arith) (omega arith)
        out c
