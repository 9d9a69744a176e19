-- ===== src/Pipe/Ring.antt =====
-- The ring of a pipe as the queue of the bytes that wait in it.
use operating_system.Common.{
  ℕ, zero, suc, ◌+◌, ◌-◌, ◌%◌, ◌^◌, ◌≤◌, ◌<◌, ◌≡◌, refl, arith, ap, ap₂, true, false, List, [], ◌∷◌,
  ◌++◌, length, length-set, get_or, set, get_or-set_self, get_or-set_ne,
}
use operating_system.Pipe.{Pipe, pipe_size, u32, full, empty, put}

-- how many bytes wait; the counters run round at 2^32
abbrev pub waiting : Pipe → ℕ
waiting p = u32 (p.nwrite + 2 ^ 32 - p.nread)

pub record IsValid (p : Pipe) : Type 0 where
  pub room : length p.buf ≡ pipe_size
  pub read_word : p.nread < 2 ^ 32
  pub write_word : p.nwrite < 2 ^ 32
  pub fits : waiting p ≤ pipe_size

-- the `k` bytes from counter `r` on
abbrev pub window : List ℕ → ℕ → ℕ → List ℕ
window buf r zero = []
window buf r (suc k) = get_or buf (r % pipe_size) 0 ∷ window buf (u32 (r + 1)) k

abbrev pub contents : Pipe → List ℕ
contents p = window p.buf p.nread (waiting p)

length-window : (buf : List ℕ) (r k : ℕ) → length (window buf r k) ≡ k
length-window buf r zero = refl
length-window buf r (suc k) = ap suc (length-window buf (u32 (r + 1)) k)

pub length-contents : (p : Pipe) → length (contents p) ≡ waiting p
length-contents p = length-window p.buf p.nread (waiting p)

window-set :
    (buf : List ℕ) (r k w c : ℕ)
    → length buf ≡ pipe_size
    → k < pipe_size
    → w ≡ u32 (r + k)
    → window (set buf (w % pipe_size) c) r (suc k) ≡ window buf r k ++ c ∷ []
window-set buf r zero w c len lt e =
    let i : w % pipe_size ≡ r % pipe_size = omega arith in
    rw i (ap (λ x. x ∷ []) (get_or-set_self buf (r % pipe_size) c 0 (omega arith)))
window-set buf r (suc k) w c len lt e =
    ap₂ ◌∷◌ (get_or-set_ne buf (w % pipe_size) (r % pipe_size) c 0 (omega arith))
      (window-set buf (u32 (r + 1)) k w c len (omega arith) (omega arith))

pub full_iff : {p : Pipe} → IsValid p → (full p ≡ true) → waiting p ≡ pipe_size
full_iff v e = ground arith

pub not_full : {p : Pipe} → IsValid p → (full p ≡ false) → waiting p < pipe_size
not_full v e = ground arith

pub put-IsValid : {p : Pipe} (c : ℕ) → IsValid p → full p ≡ false → IsValid (put p c)
put-IsValid {p} c v e = ground (arith, length-set p.buf (p.nwrite % pipe_size) c)

-- A byte that is put goes behind the others.
pub contents-put :
    {p : Pipe} (c : ℕ) → IsValid p → full p ≡ false → contents (put p c) ≡ contents p ++ c ∷ []
contents-put {p} c v e =
    let more : waiting (put p c) ≡ suc (waiting p) = ground arith in
    rw more (window-set p.buf p.nread (waiting p) p.nwrite c v.room (ground arith) (ground arith))

-- Reading takes the first byte.
pub contents-read :
    {p : Pipe}
    → IsValid p
    → empty p ≡ false
    → contents p
      ≡ get_or p.buf (p.nread % pipe_size) 0 ∷ contents (record p { nread = u32 (p.nread + 1) })
contents-read {p} v e =
    let less : waiting p ≡ suc (waiting (record p { nread = u32 (p.nread + 1) })) = ground arith in
    rw less refl

pub empty-waiting : {p : Pipe} → IsValid p → empty p ≡ true → waiting p ≡ 0
empty-waiting v e = ground arith

pub read-IsValid :
    {p : Pipe} → IsValid p → empty p ≡ false → IsValid (record p { nread = u32 (p.nread + 1) })
read-IsValid v e = ground arith
