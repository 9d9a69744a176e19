-- ===== src/Memory/Strings.antt =====
-- The bounded string functions of string.c against the text that a C string stands for.
use operating_system.Common.{
  ℕ, zero, suc, ◌+◌, ◌-◌, ◌^◌, ◌<◌, ◌≤◌, ◌≡◌, ◌≢◌, ◌⊎◌, ◌↔◌, refl, arith, ◌&&◌, ltb, leb, ◌==◌,
  if◌then◌else◌, List, [], ◌∷◌, some, inl, inr, Bool-cases,
}
use operating_system.Common.Int.{pos}
use operating_system.Memory.{
  Memory, ptr_add, write, memcmp, strncmp, strncpy, pad, safe_copy, safestrcpy, strlen_from, strlen,
}

-- the characters of the string at `p`, up to its NUL and `n` at most
unfoldable pub text : Memory → ℕ → ℕ → List ℕ
text m p zero = []
text m p (suc n) = if m p == 0 then [] else m p ∷ text m (p + 1) n

-- byte `i` of the string at `t`, and 0 from its NUL on
unfoldable pub padded : Memory → ℕ → ℕ → ℕ
padded m t zero = m t
padded m t (suc i) = if m t == 0 then 0 else padded m (t + 1) i

strncmp_complete :
    (p q n : ℕ) (m : Memory)
    → p + n < 2 ^ 32
    → q + n < 2 ^ 32
    → text m p n ≡ text m q n
    → strncmp p q n m ≡ pos 0
unfolding strncmp text
strncmp_complete p q zero m hp hq e = refl
strncmp_complete p q (suc n) m hp hq e =
    let p' : ptr_add p 1 ≡ p + 1 = omega arith in
    let q' : ptr_add q 1 ≡ q + 1 = omega arith in
    rw (p', q') (ground (arith, strncmp_complete (p + 1) (q + 1) n m))

strncmp_sound :
    (p q n : ℕ) (m : Memory)
    → p + n < 2 ^ 32
    → q + n < 2 ^ 32
    → strncmp p q n m ≡ pos 0
    → text m p n ≡ text m q n
unfolding strncmp text
strncmp_sound p q zero m hp hq e = refl
strncmp_sound p q (suc n) m hp hq e =
    let p' : ptr_add p 1 ≡ p + 1 = omega arith in
    let q' : ptr_add q 1 ≡ q + 1 = omega arith in
    let e' = rw (p', q') at e in ground (arith, strncmp_sound (p + 1) (q + 1) n m)

-- strncmp gives 0 exactly on strings that agree up to their NUL or their first `n` bytes.
strncmp_lem :
    (p q n : ℕ) (m : Memory)
    → p + n < 2 ^ 32
    → q + n < 2 ^ 32
    → (strncmp p q n m ≡ pos 0) ↔ (text m p n ≡ text m q n)
strncmp_lem p q n m hp hq = (strncmp_sound p q n m hp hq, strncmp_complete p q n m hp hq)

-- the `n` bytes from `p` on
unfoldable pub bytes : Memory → ℕ → ℕ → List ℕ
bytes m p zero = []
bytes m p (suc n) = m p ∷ bytes m (p + 1) n

memcmp_complete :
    (p q n : ℕ) (m : Memory)
    → p + n < 2 ^ 32
    → q + n < 2 ^ 32
    → bytes m p n ≡ bytes m q n
    → memcmp p q n m ≡ pos 0
unfolding memcmp bytes
memcmp_complete p q zero m hp hq e = refl
memcmp_complete p q (suc n) m hp hq e =
    let p' : ptr_add p 1 ≡ p + 1 = omega arith in
    let q' : ptr_add q 1 ≡ q + 1 = omega arith in
    rw (p', q') (ground (arith, memcmp_complete (p + 1) (q + 1) n m))

memcmp_sound :
    (p q n : ℕ) (m : Memory)
    → p + n < 2 ^ 32
    → q + n < 2 ^ 32
    → memcmp p q n m ≡ pos 0
    → bytes m p n ≡ bytes m q n
unfolding memcmp bytes
memcmp_sound p q zero m hp hq e = refl
memcmp_sound p q (suc n) m hp hq e =
    let p' : ptr_add p 1 ≡ p + 1 = omega arith in
    let q' : ptr_add q 1 ≡ q + 1 = omega arith in
    let e' = rw (p', q') at e in ground (arith, memcmp_sound (p + 1) (q + 1) n m)

-- memcmp gives 0 exactly where the `n` bytes are the same.
memcmp_lem :
    (p q n : ℕ) (m : Memory)
    → p + n < 2 ^ 32
    → q + n < 2 ^ 32
    → (memcmp p q n m ≡ pos 0) ↔ (bytes m p n ≡ bytes m q n)
memcmp_lem p q n m hp hq = (memcmp_sound p q n m hp hq, memcmp_complete p q n m hp hq)

padded-write :
    (m : Memory) (t i s v : ℕ) → (s < t) ⊎ (t + i < s) → padded (write m s v) t i ≡ padded m t i
unfolding padded write
padded-write m t zero s v apart = ground arith
padded-write m t (suc i) s v apart = ground (arith, padded-write m (t + 1) i s v)

pad_lem :
    (s n : ℕ) (m : Memory) (a : ℕ)
    → s + n < 2 ^ 32
    → pad s n m a ≡ (if leb s a && ltb a (s + n) then 0 else m a)
unfolding pad write
pad_lem s zero m a h = ground arith
pad_lem s (suc n) m a h =
    let s' : ptr_add s 1 ≡ s + 1 = omega arith in
    rw (s', pad_lem (s + 1) n (write m s 0) a (omega arith)) (ground arith)

padded_step :
    (m : Memory) (t i : ℕ)
    → padded m t i ≡ (if i == 0 then m t else if m t == 0 then 0 else padded m (t + 1) (i - 1))
unfolding padded
padded_step m t zero = refl
padded_step m t (suc i) = ground arith

-- strncpy fills its `n` bytes with the string, padded with NULs, and writes nothing else.
strncpy_lem :
    (s t n : ℕ) (m : Memory) (a : ℕ)
    → s + n < 2 ^ 32
    → t + n < 2 ^ 32
    → (s + n ≤ t) ⊎ (t + n ≤ s)
    → strncpy s t n m a ≡ (if leb s a && ltb a (s + n) then padded m t (a - s) else m a)
unfolding strncpy write
strncpy_lem s t zero m a hs ht apart = ground arith
strncpy_lem s t (suc n) m a hs ht apart =
    let s' : ptr_add s 1 ≡ s + 1 = omega arith in
    let t' : ptr_add t 1 ≡ t + 1 = omega arith in
    rw (s', t')
      (ground (
        arith,
        pad_lem (s + 1) n (write m s 0) a,
        strncpy_lem (s + 1) (t + 1) n (write m s (m t)) a,
        padded_step m t (a - s),
        padded-write m (t + 1) (a - (s + 1)) s (m t),
      ))

text_step :
    (m : Memory) (p n : ℕ) → text m p (suc n) ≡ (if m p == 0 then [] else m p ∷ text m (p + 1) n)
unfolding text
text_step m p n = refl

text-write :
    (m : Memory) (p n s v : ℕ) → (s < p) ⊎ (p + n ≤ s) → text (write m s v) p n ≡ text m p n
unfolding text write
text-write m p zero s v apart = refl
text-write m p (suc n) s v apart = ground (arith, text-write m (p + 1) n s v)

safe_copy_frame :
    (s t n : ℕ) (m : Memory) (a : ℕ)
    → s + suc n < 2 ^ 32
    → t + suc n < 2 ^ 32
    → (a < s) ⊎ (s + suc n ≤ a)
    → safe_copy s t n m a ≡ m a
unfolding safe_copy write
safe_copy_frame s t zero m a hs ht out = ground arith
safe_copy_frame s t (suc n) m a hs ht out =
    let s' : ptr_add s 1 ≡ s + 1 = omega arith in
    let t' : ptr_add t 1 ≡ t + 1 = omega arith in
    rw (s', t') (ground (arith, safe_copy_frame (s + 1) (t + 1) n (write m s (m t)) a))

text-safe_copy :
    (s t n : ℕ) (m : Memory)
    → s + suc n < 2 ^ 32
    → t + suc n < 2 ^ 32
    → (s + suc n ≤ t) ⊎ (t + suc n ≤ s)
    → text (safe_copy s t n m) s (suc n) ≡ text m t n
unfolding safe_copy write
text-safe_copy s t zero m hs ht apart = unfold text in ground arith
text-safe_copy s t (suc n) m hs ht apart =
    let s' : ptr_add s 1 ≡ s + 1 = omega arith in
    let t' : ptr_add t 1 ≡ t + 1 = omega arith in
    rw (s', t', text_step m t n)
      (elim (Bool-cases (m t == 0)) [
        | inl nul ↦ rw (nul, text_step) (ground arith)
        | inr more ↦
            rw (more, text_step)
              (ground (
                arith,
                safe_copy_frame (s + 1) (t + 1) n (write m s (m t)) s,
                text-safe_copy (s + 1) (t + 1) n (write m s (m t)),
                text-write m (t + 1) n s (m t),
              ))
      ])

-- safestrcpy leaves a string of at most `n` characters with its NUL, and writes only its buffer.
safestrcpy_lem :
    (s t n : ℕ) (m : Memory)
    → s + suc n < 2 ^ 32
    → t + suc n < 2 ^ 32
    → (s + suc n ≤ t) ⊎ (t + suc n ≤ s)
    → (text (safestrcpy s t (suc n) m) s (suc n) ≡ text m t n)
      × ((a : ℕ) → (a < s) ⊎ (s + suc n ≤ a) → safestrcpy s t (suc n) m a ≡ m a)
unfolding safestrcpy
safestrcpy_lem s t n m hs ht apart =
    (text-safe_copy s t n m hs ht apart, λ a. safe_copy_frame s t n m a hs ht)

strlen_from_lem :
    (f s n k : ℕ) (m : Memory)
    → s + k < 2 ^ 32
    → n ≤ k
    → k < n + f
    → m (s + k) ≡ 0
    → ((j : ℕ) → j < k → m (s + j) ≢ 0)
    → strlen_from f s n m ≡ some k
unfolding strlen_from
strlen_from_lem zero s n k m hs lo hi nul before = absurd (omega arith)
strlen_from_lem (suc f) s n k m hs lo hi nul before =
    let s' : ptr_add s n ≡ s + n = omega arith in
    rw s' (ground (arith, before n, strlen_from_lem f s (n + 1) k m))

-- strlen counts the bytes before the first NUL, if the fuel is more than those.
strlen_lem :
    (fuel s k : ℕ) (m : Memory)
    → s + k < 2 ^ 32
    → k < fuel
    → m (s + k) ≡ 0
    → ((j : ℕ) → j < k → m (s + j) ≢ 0)
    → strlen fuel s m ≡ some k
unfolding strlen
strlen_lem fuel s k m hs hf nul before =
    strlen_from_lem fuel s 0 k m hs (omega arith) (omega arith) nul before

-- strncmp depends on no bytes but those of its two ranges.
pub strncmp-same :
    (p q n : ℕ) (m m' : Memory)
    → p + n < 2 ^ 32
    → q + n < 2 ^ 32
    → ((a : ℕ) → p ≤ a → a < p + n → m a ≡ m' a)
    → ((a : ℕ) → q ≤ a → a < q + n → m a ≡ m' a)
    → strncmp p q n m ≡ strncmp p q n m'
unfolding strncmp
strncmp-same p q zero m m' hp hq ep eq = refl
strncmp-same p q (suc n) m m' hp hq ep eq =
    let a : ptr_add p 1 ≡ p + 1 = omega arith in
    let b : ptr_add q 1 ≡ q + 1 = omega arith in
    let ih =
      strncmp-same (p + 1) (q + 1) n m m' (omega arith) (omega arith)
        (λ x lo hi. ep x (omega arith) (omega arith))
        (λ x lo hi. eq x (omega arith) (omega arith)) in
    rw (ep p (omega arith) (omega arith), eq q (omega arith) (omega arith), a, b, ih) refl
