-- ===== src/Fs/Cache/Unique.antt =====
-- iget and idup of fs.c: an inode has one entry in the cache.
use operating_system.Common.{
  ℕ, ◌<◌, ◌≡◌, ◌≢◌, inl, inr, refl, sym, ap, ◌∙◌, arith, true, false, ◌==◌, Bool-cases, Option,
  none, some, Result, ok, panic,
}
use operating_system.Fs.Inode.{Inode}
use operating_system.Fs.Cache.{
  Cache, Scan, found_at, found_none, set_inode, matches, add_ref, recycle,
}

-- No two entries in use are for the same inode.
unfoldable pub IsUnique : Cache → Type 0
IsUnique t =
    (i j : ℕ)
    → i < 50
    → j < 50
    → (t i).ref ≢ 0
    → (t j).ref ≢ 0
    → (t i).dev ≡ (t j).dev
    → (t i).inum ≡ (t j).inum
    → i ≡ j

-- none of the first `n` entries is in use for the inode
abbrev pub Absent : Cache → (n dev inum : ℕ) → Type 0
Absent t n dev inum = (k : ℕ) → k < n → matches (t k) dev inum ≡ false

data Seen (t : Cache) (n : ℕ) : Option ℕ → Type 0 where
  all_used : ((k : ℕ) → k < n → (t k).ref ≢ 0) → Seen t n none
  unused : (j : ℕ) → j < n → (t j).ref ≡ 0 → Seen t n (some j)

data ScanSpec (t : Cache) (dev inum : ℕ) : Scan → Type 0 where
  listed_at : (i : ℕ) → i < 50 → matches (t i) dev inum ≡ true → ScanSpec t dev inum (found_at i)
  nowhere : (o : Option ℕ) → Seen t 50 o → Absent t 50 dev inum → ScanSpec t dev inum (found_none o)

-- the ways in which iget ends
pub data IgetSpec (dev inum : ℕ) (t : Cache) : Result (ℕ × Cache) → Type 0 where
  shared :
      (i : ℕ)
      → i < 50
      → matches (t i) dev inum ≡ true
      → IsUnique (add_ref i t)
      → IgetSpec dev inum t (ok (i, add_ref i t))
  fresh :
      (i : ℕ)
      → i < 50
      → (t i).ref ≡ 0
      → Absent t 50 dev inum
      → IsUnique (recycle dev inum i t)
      → IgetSpec dev inum t (ok (i, recycle dev inum i t))
  no_entry :
      ((k : ℕ) → k < 50 → (t k).ref ≢ 0)
      → Absent t 50 dev inum
      → IgetSpec dev inum t (panic "iget: no inodes")

-- A change of one entry that keeps its inode, and does not bring it into use.
pub same-IsUnique :
    (t : Cache) (i : ℕ) (ip : Inode)
    → IsUnique t
    → ip.dev ≡ (t i).dev
    → ip.inum ≡ (t i).inum
    → (ip.ref ≢ 0 → (t i).ref ≢ 0)
    → IsUnique (set_inode i ip t)
unfolding IsUnique
same-IsUnique t i ip u d m less a b ha hb ra rb e e' =
    u a b ha hb (kept_ref a ra) (kept_ref b rb) (sym (kept_dev a) ∙ (e ∙ kept_dev b))
      (sym (kept_inum a) ∙ (e' ∙ kept_inum b))
  where
    kept_dev : (j : ℕ) → (set_inode i ip t j).dev ≡ (t j).dev
    kept_dev j = elim (Bool-cases (j == i)) [
      | inl here ↦ let q : j ≡ i = ground arith in rw here (d ∙ ap (λ k. (t k).dev) (sym q))
      | inr there ↦ rw there refl
    ]

    kept_inum : (j : ℕ) → (set_inode i ip t j).inum ≡ (t j).inum
    kept_inum j = elim (Bool-cases (j == i)) [
      | inl here ↦ let q : j ≡ i = ground arith in rw here (m ∙ ap (λ k. (t k).inum) (sym q))
      | inr there ↦ rw there refl
    ]

    kept_ref : (j : ℕ) → (set_inode i ip t j).ref ≢ 0 → (t j).ref ≢ 0
    kept_ref j h z = elim (Bool-cases (j == i)) [
      | inl here ↦
          let q : j ≡ i = ground arith in
          less (λ y. h (rw here y)) (ap (λ k. (t k).ref) (sym q) ∙ z)
      | inr there ↦ h (rw there z)
    ]
