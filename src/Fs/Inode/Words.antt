-- ===== src/Fs/Inode/Words.antt =====
-- 16- and 32-bit words in the bytes of a block.
use operating_system.Common.{
  ℕ, zero, suc, ◌+◌, ◌*◌, ◌^◌, ◌≤◌, ◌<◌, ◌≡◌, ◌⊎◌, inl, inr, refl, ◌∙◌, arith, true, ltb, ◌==◌,
  if◌then◌else◌, Bool-cases,
}
use operating_system.Memory.{write, store32, load32, ptr_add}
use operating_system.Memory.Fill.{load32-store32, load32-store32_ne}
use operating_system.Fs.{Block}
use operating_system.Fs.Inode.{Inode, store16, load16, store_addrs, get_dinode}

pub store32-out :
    (d : Block) (a w x : ℕ) → a + 4 < 2 ^ 32 → (x < a) ⊎ (a + 4 ≤ x) → store32 d a w x ≡ d x
unfolding store32 write
store32-out d a w x ha h = ground arith

-- A load depends on its own bytes.
pub load16-same :
    (c d : Block) (a : ℕ)
    → a + 4 < 2 ^ 32
    → ((x : ℕ) → a ≤ x → x < a + 2 → c x ≡ d x)
    → load16 c a ≡ load16 d a
load16-same c d a ha e =
    rw (e a (omega arith) (omega arith), e (ptr_add a 1) (omega arith) (omega arith)) refl

pub load32-same :
    (c d : Block) (a : ℕ)
    → a + 4 < 2 ^ 32
    → ((x : ℕ) → a ≤ x → x < a + 4 → c x ≡ d x)
    → load32 c a ≡ load32 d a
load32-same c d a ha e =
    rw
      (
        e a (omega arith) (omega arith),
        e (ptr_add a 1) (omega arith) (omega arith),
        e (ptr_add a 2) (omega arith) (omega arith),
        e (ptr_add a 3) (omega arith) (omega arith),
      )
      refl

pub get_dinode-same :
    (c d : Block) (o : ℕ) (jp : Inode)
    → o + 64 ≤ 512
    → ((x : ℕ) → o ≤ x → x < o + 64 → c x ≡ d x)
    → get_dinode o c jp ≡ get_dinode o d jp
unfolding get_dinode
get_dinode-same c d o jp room e =
    let short : (a : ℕ) → a < 8 → load16 c (o + a) ≡ load16 d (o + a) =
      λ a ha. load16-same c d (o + a) (omega arith) (λ x lo hi. e x (omega arith) (omega arith)) in
    let word : (a : ℕ) → a ≤ 60 → load32 c (o + a) ≡ load32 d (o + a) =
      λ a ha. load32-same c d (o + a) (omega arith) (λ x lo hi. e x (omega arith) (omega arith)) in
    let first : load16 c o ≡ load16 d o =
      load16-same c d o (omega arith) (λ x lo hi. e x (omega arith) (omega arith)) in
    let words : (i : ℕ)
        → (if ltb i 13 then load32 c (o + 12 + 4 * i) else jp.addrs i)
          ≡ (if ltb i 13 then load32 d (o + 12 + 4 * i) else jp.addrs i) =
      λ i. elim (Bool-cases (ltb i 13)) [
        | inl inside ↦
            let at : o + 12 + 4 * i ≡ o + (12 + 4 * i) = omega arith in
            rw (inside, at) (word (12 + 4 * i) (ground arith))
        | inr outside ↦ rw outside refl
      ] in
    λ t. record jp {
      type = first t;
      major = short 2 (omega arith) t;
      minor = short 4 (omega arith) t;
      nlink = short 6 (omega arith) t;
      size = word 8 (omega arith) t;
      addrs = λ i. words i t;
      valid = true;
    }

pub load16-store16 :
    (d : Block) (a w : ℕ) → a + 4 < 2 ^ 32 → w < 2 ^ 16 → load16 (store16 d a w) a ≡ w
unfolding write
load16-store16 d a w ha hw = ground arith

pub load16-store16_ne :
    (d : Block) (a b w : ℕ)
    → a + 4 < 2 ^ 32
    → b + 4 < 2 ^ 32
    → (a + 2 ≤ b) ⊎ (b + 2 ≤ a)
    → load16 (store16 d a w) b ≡ load16 d b
unfolding write
load16-store16_ne d a b w ha hb apart = ground arith

pub load16-store32_ne :
    (d : Block) (a b w : ℕ)
    → a + 4 < 2 ^ 32
    → b + 4 < 2 ^ 32
    → b + 2 ≤ a
    → load16 (store32 d a w) b ≡ load16 d b
unfolding store32 write
load16-store32_ne d a b w ha hb apart = ground arith

pub store_addrs-out :
    (n : ℕ) (addrs : ℕ → ℕ) (o : ℕ) (d : Block) (x : ℕ)
    → o + 12 + 4 * n < 2 ^ 32
    → (x < o + 12) ⊎ (o + 12 + 4 * n ≤ x)
    → store_addrs n addrs o d x ≡ d x
unfolding store_addrs
store_addrs-out zero addrs o d x fits h = refl
store_addrs-out (suc n) addrs o d x fits h =
    store32-out (store_addrs n addrs o d) (o + 12 + 4 * n) (addrs n) x (omega arith) (omega arith)
    ∙ store_addrs-out n addrs o d x (omega arith) (omega arith)

pub load32-store_addrs :
    (n : ℕ) (addrs : ℕ → ℕ) (o : ℕ) (d : Block) (k : ℕ)
    → o + 12 + 4 * n < 2 ^ 32
    → ((i : ℕ) → i < n → addrs i < 2 ^ 32)
    → k < n
    → load32 (store_addrs n addrs o d) (o + 12 + 4 * k) ≡ addrs k
unfolding store_addrs
load32-store_addrs zero addrs o d k fits small h = absurd (omega arith)
load32-store_addrs (suc n) addrs o d k fits small h = elim (Bool-cases (k == n)) [
  | inl last ↦
      let e : k ≡ n = ground arith in
      rw e (
        load32-store32 (store_addrs n addrs o d) (o + 12 + 4 * n) (addrs n) (omega arith)
          (small n (omega arith)))
  | inr before ↦
      load32-store32_ne (store_addrs n addrs o d) (o + 12 + 4 * n) (o + 12 + 4 * k) (addrs n)
        (omega arith) (omega arith) (ground arith)
      ∙ load32-store_addrs n addrs o d k (omega arith) (λ i hi. small i (omega arith))
          (ground arith)
]
