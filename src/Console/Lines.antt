-- ===== src/Console/Lines.antt =====
-- consoleread of console.c against the bytes that are ready.
use mathlib.Core.List.{append_assoc, append-nil}
use operating_system.Common.{
  ℕ, zero, suc, ◌+◌, ◌%◌, ◌^◌, ◌-◌, ◌≤◌, ◌<◌, ◌≡◌, ◌≢◌, inl, inr, refl, sym, ap, subst, ◌∙◌, arith,
  Bool, true, false, ltb, ◌==◌, if◌then◌else◌, Bool-cases, List, [], ◌∷◌, ◌++◌, length, get_or,
  length-append,
}
use operating_system.Common.Int.{pos, negsuc}
use operating_system.Console.{
  Input, Console, ReadRun, Ending, returned, sleeping, pass, consoleintr, consoleread,
}
use operating_system.Console.Keys.{IsBytes, consoleintr-Holds}
use operating_system.Console.Held.{Lines, Holds, press, press_all}

-- What a reader of at most `n` bytes takes, what it leaves, and whether it has to wait for more: up
-- to a newline, with it, or up to a Control-D, which is taken alone.
pub read_line : (started : Bool) (n : ℕ) → List ℕ → List ℕ × List ℕ × Bool
read_line started zero xs = ([], xs, false)
read_line started (suc n) [] = ([], [], true)
read_line started (suc n) (x ∷ xs) = elim (x == 4) [
  | true ↦ ([], if started then x ∷ xs else xs, false)
  | false ↦ elim (x == 10) [
    | true ↦ (x ∷ [], xs, false)
    | false ↦ (x ∷ (read_line true n xs).0, (read_line true n xs).1, (read_line true n xs).2)
  ]
]

-- how the stretch ends
abbrev pub ends : (killed : Bool) (target n : ℕ) → List ℕ × List ℕ × Bool → Ending
ends killed target n (got, rest, waits) =
    if waits
    then if killed then returned (negsuc 0) else sleeping (n - length got)
    else returned (pos (target - n + length got))

abbrev pub ReadSpec :
    (killed : Bool) (target n : ℕ) → List ℕ → List ℕ × List ℕ × Bool → ReadRun → Type 0
ReadSpec killed target n line r run =
    Holds run.input (r.1, line) × (run.got ≡ r.0) × (run.ending ≡ ends killed target n r)

empty-same : {i : Input} {line : List ℕ} → Holds i ([], line) → (i.r == i.w) ≡ true
empty-same {i} h =
    let w = h.w_at in let r = h.r_word in let e : i.w ≡ i.r = omega (arith, w, r) in ground arith

more-differ : {i : Input} {x : ℕ} {xs line : List ℕ} → Holds i (x ∷ xs, line) → (i.r == i.w) ≡ false
more-differ {i} h = let w = h.w_at in let r = h.r_word in let f = h.fits in ground arith

first : {i : Input} {x : ℕ} {xs line : List ℕ} → Holds i (x ∷ xs, line) → i.buf (i.r % 128) ≡ x
first {i} h =
    let e : i.r % 128 ≡ (i.r + 0) % 128 = omega arith in
    ap (λ y. i.buf y) e ∙ h.ready 0 (omega arith)

pass-Holds :
    {i : Input} {x : ℕ} {xs line : List ℕ} → Holds i (x ∷ xs, line) → Holds (pass i) (xs, line)
pass-Holds {i} {x} {xs} {line} h = record {
  r_word = omega arith;
  w_at = let w = h.w_at in omega (arith, w);
  e_at = let e = h.e_at in omega (arith, e);
  fits = let f = h.fits in omega (arith, f);
  ready = λ j hj.
      let e : ((i.r + 1) % 2 ^ 32 + j) % 128 ≡ (i.r + suc j) % 128 = omega arith in
      ap (λ y. i.buf y) e ∙ h.ready (suc j) (omega arith);
  line = λ j hj.
      let e : ((i.r + 1) % 2 ^ 32 + length xs + j) % 128 ≡ (i.r + suc (length xs) + j) % 128 =
        omega arith in
      ap (λ y. i.buf y) e ∙ h.line j hj;
  no_newline = h.no_newline;
}

ends-more :
    (killed : Bool) (target n x : ℕ) (got rest : List ℕ) (waits : Bool)
    → suc n ≤ target
    → ends killed target n (got, rest, waits) ≡ ends killed target (suc n) (x ∷ got, rest, waits)
ends-more killed target n x got rest waits h =
    let e : n - length got ≡ suc n - suc (length got) = omega arith in
    let e' : target - n + length got ≡ target - suc n + suc (length got) = omega arith in
    rw (e, e') refl

-- A stretch of consoleread, on a ring with `ready` bytes, takes what `read_line` says and leaves the
-- rest and the edited line: it returns the count of all it took since the call, or with nothing
-- left it fails if it was killed, and sleeps if not.
consoleread-ReadSpec :
    (killed : Bool) (target n : ℕ) (i : Input) (ready line : List ℕ)
    → Holds i (ready, line)
    → n ≤ target
    → ReadSpec killed target n line
        (read_line (ltb n target) n ready)
        (consoleread killed target n i)
unfolding consoleread read_line
consoleread-ReadSpec killed target zero i ready line h le =
    (h, refl, ap (λ x. returned (pos x)) (omega arith))
consoleread-ReadSpec killed target (suc n) i [] line h le =
    rw (consoleread, empty-same h) (h, refl, ground arith)
consoleread-ReadSpec killed target (suc n) i (x ∷ xs) line h le = elim (Bool-cases (x == 4)) [
  | inl eof ↦
      rw (consoleread, more-differ h, first h, eof, read_line)
        (elim (Bool-cases (ltb (suc n) target)) [
          | inl s ↦ rw s (h, refl, ap (λ y. returned (pos y)) (omega arith))
          | inr s ↦ rw s (pass-Holds h, refl, ap (λ y. returned (pos y)) (omega arith))
        ])
  | inr a ↦ elim (Bool-cases (x == 10)) [
    | inl newl ↦
        rw (consoleread, more-differ h, first h, a, first h, newl, first h, read_line)
          (pass-Holds h, refl, ap (λ y. returned (pos y)) (omega arith))
    | inr b ↦
        let started : ltb n target ≡ true = ground arith in
        let (h', got, end) =
          subst
            (λ s.
              ReadSpec killed target n line (read_line s n xs)
                (consoleread killed target n (pass i)))
            started
            (consoleread-ReadSpec killed target n (pass i) xs line (pass-Holds h) (omega arith)) in
        rw (consoleread, more-differ h, first h, a, first h, b, first h, read_line)
          (
            h',
            ap (λ g. x ∷ g) got,
            end
                ∙ ends-more killed target n x (read_line true n xs).0 (read_line true n xs).1
                    (read_line true n xs).2 le,
          )
  ]
]

-- a key that stands for itself in the line
unfoldable pub IsPlain : ℕ → Type 0
IsPlain c = (0 < c) × (c < 127) × (c ≢ 4) × (c ≢ 8) × (c ≢ 10) × (c ≢ 13) × (c ≢ 16) × (c ≢ 21)

press-plain :
    (c : ℕ) (line : List ℕ)
    → IsPlain c
    → length line < 127
    → press c ([], line) ≡ ([], line ++ c ∷ [])
unfolding IsPlain press
press-plain c line (a, b, d, e, f, g, h, i) room = ground arith

press_all-plain :
    (cs line : List ℕ)
    → ((j : ℕ) → j < length cs → IsPlain (get_or cs j 0))
    → length line + length cs < 128
    → press_all cs ([], line) ≡ ([], line ++ cs)
unfolding press_all
press_all-plain [] line plain room = ap (λ l. ([], l)) (sym (append-nil line))
press_all-plain (c ∷ cs) line plain room =
    ap (press_all cs) (press-plain c line (plain 0 (omega arith)) (omega arith))
    ∙ (press_all-plain cs (line ++ c ∷ []) (λ j hj. plain (suc j) (omega arith))
          (let e = length-append line (c ∷ []) in omega (arith, e, room))
        ∙ ap (λ l. ([], l)) (append_assoc line (c ∷ []) cs))

press_all-append :
    (cs ds : List ℕ) (p : Lines) → press_all (cs ++ ds) p ≡ press_all ds (press_all cs p)
unfolding press_all
press_all-append [] ds p = refl
press_all-append (c ∷ cs) ds p = press_all-append cs ds (press c p)

press-return : (line : List ℕ) → length line < 128 → press 13 ([], line) ≡ (line ++ 10 ∷ [], [])
unfolding press
press-return line room = ground arith

read_line-whole :
    (started : Bool) (cs : List ℕ) (n : ℕ)
    → ((j : ℕ) → j < length cs → IsPlain (get_or cs j 0))
    → length cs < n
    → read_line started n (cs ++ 10 ∷ []) ≡ (cs ++ 10 ∷ [], [], false)
unfolding read_line IsPlain
read_line-whole started [] zero plain room = absurd (omega arith)
read_line-whole started [] (suc n) plain room = refl
read_line-whole started (c ∷ cs) zero plain room = absurd (omega arith)
read_line-whole started (c ∷ cs) (suc n) plain room =
    let (a, b, d, e, f, g, h, i) = plain 0 (omega arith) in
    let t : (c == 4) ≡ false = ground arith in
    let t' : (c == 10) ≡ false = ground arith in
    let ih = read_line-whole true cs n (λ j hj. plain (suc j) (omega arith)) (omega arith) in
    rw (read_line, t, t', ih) refl

typed-IsBytes :
    (cs : List ℕ) → ((j : ℕ) → j < length cs → IsPlain (get_or cs j 0)) → IsBytes (cs ++ 13 ∷ [])
unfolding IsBytes IsPlain
typed-IsBytes [] plain zero h = omega arith
typed-IsBytes [] plain (suc j) h = absurd (omega arith)
typed-IsBytes (c ∷ cs) plain zero h =
    let (a, b, d, e, f, g, x, i) = plain 0 (omega arith) in omega arith
typed-IsBytes (c ∷ cs) plain (suc j) h =
    typed-IsBytes cs (λ m hm. plain (suc m) (omega arith)) j (omega arith)

-- On a console where nothing waits, fewer than 128 plain keys and Return come out of consoleread,
-- asked for more bytes than keys, as those characters and a newline, and nothing waits again.
pub consoleread-consoleintr :
    (cs : List ℕ) (k : Console) (killed : Bool) (n : ℕ)
    → Holds k.input ([], [])
    → ((j : ℕ) → j < length cs → IsPlain (get_or cs j 0))
    → length cs < 128
    → length cs < n
    → Holds (consoleread killed n n (consoleintr (cs ++ 13 ∷ []) k).input).input ([], [])
      × ((consoleread killed n n (consoleintr (cs ++ 13 ∷ []) k).input).got ≡ cs ++ 10 ∷ [])
      × ((consoleread killed n n (consoleintr (cs ++ 13 ∷ []) k).input).ending
          ≡ returned (pos (length cs + 1)))
unfolding press_all
consoleread-consoleintr cs k killed n h plain short room =
    let i = (consoleintr (cs ++ 13 ∷ []) k).input in
    let typed : press_all (cs ++ 13 ∷ []) ([], []) ≡ (cs ++ 10 ∷ [], []) =
      press_all-append cs (13 ∷ []) ([], [])
      ∙ (ap (press 13) (press_all-plain cs [] plain (omega arith)) ∙ press-return cs short) in
    let held : Holds i (cs ++ 10 ∷ [], []) =
      subst (λ p. Holds i p) typed
        (consoleintr-Holds (cs ++ 13 ∷ []) k ([], []) (typed-IsBytes cs plain) h) in
    let spec = consoleread-ReadSpec killed n n i (cs ++ 10 ∷ []) [] held (omega arith) in
    let (h', got, end) =
      subst (λ r. ReadSpec killed n n [] r (consoleread killed n n i))
        (read_line-whole (ltb n n) cs n plain room) spec in
    (
      h',
      got,
      end ∙ ap (λ y. returned (pos y)) (let e = length-append cs (10 ∷ []) in omega (arith, e)),
    )
