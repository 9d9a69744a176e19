-- ===== src/Console/Held.antt =====
-- The ring of console.c as the lines that it holds, and what a key does to those.
use operating_system.Common.{
  ℕ, zero, suc, ◌+◌, ◌%◌, ◌^◌, ◌-◌, ◌≤◌, ◌<◌, ◌≡◌, ◌≢◌, refl, sym, ap, ◌∙◌, arith, false, not, ltb,
  ◌==◌, ◌&&◌, ◌||◌, if◌then◌else◌, List, [], ◌∷◌, ◌++◌, length, get_or, take, length-take,
}
use operating_system.Console.{Input, Console, erase, newline}

-- the bytes that readers may take, and the line that is edited
abbrev pub Lines : Type 0
Lines = List ℕ × List ℕ

abbrev pub put_char : ℕ → Lines → Lines
put_char c (ready, line) =
    if c == 10 || c == 4 || length ready + length line + 1 == 128
    then (ready ++ (line ++ c ∷ []), [])
    else (ready, line ++ c ∷ [])

-- What a key does: Control-P nothing, Control-U drops the line, Backspace and Delete its last
-- character; any other goes behind the line if there is room, Return as a newline. A newline, a
-- Control-D and the last free place hand the line over.
unfoldable pub press : ℕ → Lines → Lines
press c (ready, line) =
    if c == 16
    then (ready, line)
    else if c == 21
    then (ready, [])
    else if c == 8 || c == 127
    then (ready, take (length line - 1) line)
    else if not (c == 0) && ltb (length ready + length line) 128
    then put_char (newline c) (ready, line)
    else (ready, line)

unfoldable pub press_all : List ℕ → Lines → Lines
press_all [] p = p
press_all (c ∷ cs) p = press_all cs (press c p)

pub get_or-append_left :
    (xs ys : List ℕ) (k : ℕ) → k < length xs → get_or (xs ++ ys) k 0 ≡ get_or xs k 0
get_or-append_left [] ys k h = absurd (omega arith)
get_or-append_left (x ∷ xs) ys zero h = refl
get_or-append_left (x ∷ xs) ys (suc k) h = get_or-append_left xs ys k (omega arith)

pub get_or-append_right :
    (xs ys : List ℕ) (k : ℕ) → get_or (xs ++ ys) (length xs + k) 0 ≡ get_or ys k 0
get_or-append_right [] ys k = ap (λ i. get_or ys i 0) (omega arith)
get_or-append_right (x ∷ xs) ys k =
    let e : suc (length xs) + k ≡ suc (length xs + k) = omega arith in
    ap (λ i. get_or (x ∷ xs ++ ys) i 0) e ∙ get_or-append_right xs ys k

pub get_or-take : (n : ℕ) (xs : List ℕ) (k : ℕ) → k < n → get_or (take n xs) k 0 ≡ get_or xs k 0
get_or-take zero xs k h = absurd (omega arith)
get_or-take (suc n) [] k h = refl
get_or-take (suc n) (x ∷ xs) zero h = refl
get_or-take (suc n) (x ∷ xs) (suc k) h = get_or-take n xs k (omega arith)

-- The ring has the bytes that are ready and behind them those of the line.
pub record Holds (i : Input) (p : Lines) : Type 0 where
  pub r_word : i.r < 2 ^ 32
  pub w_at : i.w ≡ (i.r + length (p.0)) % 2 ^ 32
  pub e_at : i.e ≡ (i.r + length (p.0) + length (p.1)) % 2 ^ 32
  pub fits : length (p.0) + length (p.1) ≤ 128
  pub ready : (k : ℕ) → k < length (p.0) → i.buf ((i.r + k) % 128) ≡ get_or (p.0) k 0
  pub line : (k : ℕ) → k < length (p.1) → i.buf ((i.r + length (p.0) + k) % 128) ≡ get_or (p.1) k 0
  pub no_newline : (k : ℕ) → k < length (p.1) → get_or (p.1) k 0 ≢ 10

module _ (k : Console) {ready line : List ℕ} (h : Holds k.input (ready, line)) where
  -- the line without its end
  pub cut-Holds :
      (m : ℕ)
      → m ≤ length line
      → (i : Input) → i.buf ≡ k.input.buf
      → i.r ≡ k.input.r
      → i.w ≡ k.input.w
      → i.e ≡ (k.input.r + length ready + m) % 2 ^ 32
      → Holds i (ready, take m line)
  cut-Holds m le i b r w e =
      let len : length (take m line) ≡ m = length-take m line ∙ ground arith in
      let fits = h.fits in
      record {
        r_word = rw r h.r_word;
        w_at = rw (w, r) h.w_at;
        e_at = rw (r, len) e;
        fits = rw len (omega arith);
        ready = λ j hj. rw (b, r) (h.ready j hj);
        line = λ j hj.
            let hj' : j < m = omega (arith, hj, len) in
            rw (b, r) (h.line j (omega arith) ∙ sym (get_or-take m line j hj'));
        no_newline = λ j hj.
            let hj' : j < m = omega (arith, hj, len) in
            rw (get_or-take m line j hj') (h.no_newline j (omega arith));
      }

  pub nonempty : (k.input.e == k.input.w) ≡ false → 0 < length line
  nonempty t = let e = h.e_at in let w = h.w_at in let f = h.fits in ground arith

  pub erase-Holds : 0 < length line → Holds (erase k).input (ready, take (length line - 1) line)
  erase-Holds lt =
      let e = h.e_at in
      cut-Holds (length line - 1) (omega arith) (erase k).input refl refl refl (omega arith)
