-- ===== src/Kalloc/Examples.antt =====
-- The allocator on a small range of memory.
use operating_system.Common.{ℕ, ◌≡◌, ◌↔◌, refl, arith, [], ◌∷◌, true, false, ok, panic}
use operating_system.Kalloc.{Kmem, kfree, kalloc, freerange, page_round_up}
use operating_system.Kalloc.Chain.{
  IsPage, Free, pop, OnlyPage, kfree-Free, kfree-panic_iff, kalloc-Free,
}
use operating_system.Kalloc.Range.{push_pages, whole_pages, freerange-Free}

abbrev end : ℕ
end = 0x8010_8000

abbrev none_free : Kmem
none_free = record { use_lock = false; freelist = 0; mem = λ a. 0 }

first-IsPage : IsPage end 0x8010_9000
first-IsPage = record {
  aligned = refl;
  above = omega arith;
  kernel = omega arith;
  below = omega arith;
}

kfree-Free_example :
    (k' : Kmem) × (kfree end 0x8010_9000 none_free ≡ ok k')
    × Free end k' (0x8010_9000 ∷ [])
    × OnlyPage end 0x8010_9000 none_free.mem k'.mem
kfree-Free_example = kfree-Free end none_free 0x8010_9000 [] first-IsPage refl refl

kfree-panic_example : (kfree end 0x8010_9001 none_free ≡ panic "kfree") ↔ (¬ IsPage end 0x8010_9001)
kfree-panic_example = kfree-panic_iff end none_free 0x8010_9001 (omega arith)

-- one page free, its link is 0
abbrev one_free : Kmem
one_free = record { use_lock = true; freelist = 0x8010_9000; mem = λ a. 0 }

kalloc-Free_example :
    ((kalloc one_free).0 ≡ (pop (0x8010_9000 ∷ [])).0)
    × Free end (kalloc one_free).1 (pop (0x8010_9000 ∷ [])).1
    × ((kalloc one_free).1.mem ≡ one_free.mem)
kalloc-Free_example = kalloc-Free end one_free (0x8010_9000 ∷ []) (refl, first-IsPage, refl, refl)

freerange-Free_example :
    (k' : Kmem) × (freerange end 0x8010_8001 0x8010_c000 none_free ≡ ok k')
    × Free end k'
        (push_pages (page_round_up 0x8010_8001) (whole_pages end 0x8010_8001 0x8010_c000) [])
freerange-Free_example =
    freerange-Free end 0x8010_8001 0x8010_c000 none_free [] (omega arith) (omega arith)
      (omega arith) (omega arith) (omega arith) tt refl

three_pages :
    push_pages (page_round_up 0x8010_8001) (whole_pages end 0x8010_8001 0x8010_c000) []
    ≡ 0x8010_b000 ∷ 0x8010_a000 ∷ 0x8010_9000 ∷ []
unfolding push_pages
three_pages = refl
