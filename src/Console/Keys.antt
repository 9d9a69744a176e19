-- ===== src/Console/Keys.antt =====
-- consoleintr of console.c against the lines that were typed.
use operating_system.Common.{
  ℕ, zero, suc, ◌+◌, ◌%◌, ◌^◌, ◌-◌, ◌≤◌, ◌<◌, ◌≡◌, ◌≢◌, inl, inr, refl, sym, ap, ◌∙◌, arith, true,
  false, not, ltb, ◌==◌, ◌&&◌, ◌||◌, Bool-cases, List, [], ◌∷◌, ◌++◌, length, get_or, take,
  length-append, length-take,
}
use operating_system.Console.{
  Input, Console, input_buf, before, erase, kill_line, newline, append, complete, enter, key,
  consoleintr,
}
use operating_system.Console.Held.{
  Lines, put_char, press, press_all, Holds, cut-Holds, nonempty, erase-Holds, get_or-append_left,
  get_or-append_right,
}

-- Control-U takes the whole line, since it has no newline.
kill_line-Holds :
    (fuel : ℕ) (k : Console) (ready line : List ℕ)
    → Holds k.input (ready, line)
    → length line ≤ fuel
    → Holds (kill_line fuel k).input (ready, [])
unfolding kill_line
kill_line-Holds zero k ready line h enough =
    let none : take 0 line ≡ [] = refl in
    let e = h.e_at in cut-Holds k h 0 (omega arith) k.input refl refl refl (omega arith)
kill_line-Holds (suc fuel) k ready line h enough =
    elim (Bool-cases (k.input.e == k.input.w || k.input.buf (before k.input.e % 128) == 10)) [
      | inl stop ↦
          let e = h.e_at in
          rw (kill_line, stop)
            (cut-Holds k h 0 (omega arith) k.input refl refl refl
              (let z = stopped stop in omega (arith, e, z)))
      | inr go ↦
          let lt = nonempty k h (ground (arith, go)) in
          let len : length (take (length line - 1) line) ≡ length line - 1 =
            length-take (length line - 1) line ∙ ground arith in
          rw (kill_line, go)
            (kill_line-Holds fuel (erase k) ready (take (length line - 1) line) (erase-Holds k h lt)
              (omega (arith, len, enough)))
    ]
  where
    stopped :
        (k.input.e == k.input.w || k.input.buf (before k.input.e % 128) == 10) ≡ true
        → length line ≡ 0
    stopped t = elim (Bool-cases (length line == 0)) [
      | inl none_left ↦ ground arith
      | inr some_left ↦
          let last = h.line (length line - 1) (ground arith) in
          let ne = h.no_newline (length line - 1) (ground arith) in
          let e = h.e_at in
          let w = h.w_at in
          let f = h.fits in
          let at : before k.input.e % 128 ≡ (k.input.r + length ready + (length line - 1)) % 128 =
            ground (arith, e) in
          let differ : (k.input.e == k.input.w) ≡ false = ground (arith, e, w, f) in
          let t' : k.input.buf (before k.input.e % 128) ≡ 10 = ground (arith, t, differ) in
          absurd (ne (sym last ∙ (ap (λ x. k.input.buf x) (sym at) ∙ t')))
    ]

-- a character behind the line, or handed over with it
module _ (k : Console) {ready line : List ℕ} (h : Holds k.input (ready, line)) (c : ℕ)
    (byte : c < 256) (room : length ready + length line < 128) where
  new_length : length (line ++ c ∷ []) ≡ length line + 1
  new_length = length-append line (c ∷ [])

  spot : k.input.e % 128 ≡ (k.input.r + length ready + length line) % 128
  spot = let e = h.e_at in omega (arith, e)

  old :
      (j : ℕ)
      → j < length ready + length line
      → (append c k.input).buf ((k.input.r + j) % 128) ≡ k.input.buf ((k.input.r + j) % 128)
  old j hj =
      let t : ((k.input.r + j) % 128 == k.input.e % 128) ≡ false = ground (arith, spot, hj, room) in
      rw t refl

  fresh : (append c k.input).buf ((k.input.r + length ready + length line) % 128) ≡ c
  fresh =
      let t : ((k.input.r + length ready + length line) % 128 == k.input.e % 128) ≡ true =
        ground (arith, spot) in
      let m : c % 256 ≡ c = omega arith in rw (t, m) refl

  append-line :
      (j : ℕ)
      → j < length (line ++ c ∷ [])
      → (append c k.input).buf ((k.input.r + length ready + j) % 128) ≡ get_or (line ++ c ∷ []) j 0
  append-line j hj = elim (Bool-cases (ltb j (length line))) [
    | inl before_it ↦
        let hj' : j < length line = ground arith in
        let assoc : k.input.r + length ready + j ≡ k.input.r + (length ready + j) = omega arith in
        let o = old (length ready + j) (omega arith) in
        rw (assoc, o, ← assoc) (h.line j hj' ∙ sym (get_or-append_left line (c ∷ []) j hj'))
    | inr at_it ↦
        let e : j ≡ length line + 0 = ground (arith, hj, new_length) in
        let e' : j ≡ length line = ground (arith, e) in
        ap (λ x. (append c k.input).buf ((k.input.r + length ready + x) % 128)) e'
        ∙ (fresh
            ∙ sym (ap (λ x. get_or (line ++ c ∷ []) x 0) e ∙ get_or-append_right line (c ∷ []) 0))
  ]

  append-ready :
      (j : ℕ) → j < length ready → (append c k.input).buf ((k.input.r + j) % 128) ≡ get_or ready j 0
  append-ready j hj = old j (omega arith) ∙ h.ready j hj

  append-Holds : c ≢ 10 → Holds (append c k.input) (ready, line ++ c ∷ [])
  append-Holds ne = record {
    r_word = h.r_word;
    w_at = h.w_at;
    e_at = let e = h.e_at in omega (arith, e, new_length);
    fits = omega (arith, new_length, room);
    ready = append-ready;
    line = append-line;
    no_newline = λ j hj z. elim (Bool-cases (ltb j (length line))) [
      | inl before_it ↦
          let hj' : j < length line = ground arith in
          h.no_newline j hj' (sym (get_or-append_left line (c ∷ []) j hj') ∙ z)
      | inr at_it ↦
          let e : length line + 0 ≡ j = ground (arith, hj, new_length) in
          ne (
            sym (get_or-append_right line (c ∷ []) 0)
            ∙ (ap (λ x. get_or (line ++ c ∷ []) x 0) e ∙ z))
    ];
  }

  all_length : length (ready ++ (line ++ c ∷ [])) ≡ length ready + (length line + 1)
  all_length = length-append ready (line ++ c ∷ []) ∙ ap (λ x. length ready + x) new_length

  at_end : (append c k.input).e ≡ (k.input.r + length (ready ++ (line ++ c ∷ []))) % 2 ^ 32
  at_end = let e = h.e_at in omega (arith, e, all_length)

  abbrev over : Input
  over = record (append c k.input) { w = (append c k.input).e }

  over-Holds : Holds over (ready ++ (line ++ c ∷ []), [])
  over-Holds = record {
    r_word = h.r_word;
    w_at = at_end;
    e_at = at_end ∙ ap (λ x. x % 2 ^ 32) (omega arith);
    fits = omega (arith, all_length, room);
    ready = λ j hj. elim (Bool-cases (ltb j (length ready))) [
      | inl early ↦
          let hj' : j < length ready = ground arith in
          append-ready j hj' ∙ sym (get_or-append_left ready (line ++ c ∷ []) j hj')
      | inr late ↦
          let e : length ready + (j - length ready) ≡ j = ground arith in
          let e' : k.input.r + length ready + (j - length ready) ≡ k.input.r + j =
            omega (arith, e) in
          sym (ap (λ x. (append c k.input).buf (x % 128)) e')
          ∙ (append-line (j - length ready) (omega (arith, hj, all_length, new_length, e))
              ∙ (sym (get_or-append_right ready (line ++ c ∷ []) (j - length ready))
                  ∙ ap (λ x. get_or (ready ++ (line ++ c ∷ [])) x 0) e))
    ];
    line = λ j hj. absurd (omega arith);
    no_newline = λ j hj. absurd (omega arith);
  }

  complete-same :
      complete c (append c k.input) ≡ (c == 10 || c == 4 || length ready + length line + 1 == 128)
  complete-same =
      let e = h.e_at in
      let last : ((append c k.input).e == (k.input.r + input_buf) % 2 ^ 32)
          ≡ (length ready + length line + 1 == 128) =
        ground (arith, e, room) in
      ap (λ b. c == 10 || c == 4 || b) last

  enter-Holds : Holds (enter c k).input (put_char c (ready, line))
  enter-Holds = elim (Bool-cases (c == 10 || c == 4 || length ready + length line + 1 == 128)) [
    | inl whole ↦ let t = complete-same ∙ whole in rw (t, whole) over-Holds
    | inr part ↦ let t = complete-same ∙ part in rw (t, part) (append-Holds (λ z. ground arith))
  ]

test :
    (k : Console) {ready line : List ℕ}
    → Holds k.input (ready, line)
    → (c : ℕ)
    → (not (c == 0) && ltb ((k.input.e + 2 ^ 32 - k.input.r) % 2 ^ 32) input_buf)
      ≡ (not (c == 0) && ltb (length ready + length line) 128)
test k {ready} {line} h c =
    let e = h.e_at in
    let f = h.fits in
    let r = h.r_word in
    let same : (k.input.e + 2 ^ 32 - k.input.r) % 2 ^ 32 ≡ length ready + length line =
      omega (arith, e, f, r) in
    rw same refl

unfoldable pub IsBytes : List ℕ → Type 0
IsBytes cs = (j : ℕ) → j < length cs → get_or cs j 0 < 256

-- A key does to the ring what `press` does to the lines.
key-Holds :
    (c : ℕ) (k : Console) (p : Lines)
    → c < 256
    → Holds k.input p
    → Holds (key c k).input (press c p)
unfolding key press
key-Holds c k (ready, line) hc h = elim (Bool-cases (c == 16)) [
  | inl list ↦ rw (list, press, key) h
  | inr a ↦ elim (Bool-cases (c == 21)) [
    | inl kill ↦
        rw (a, kill, press, key)
          (kill_line-Holds 128 k ready line h (let f = h.fits in omega (arith, f)))
    | inr b ↦ elim (Bool-cases (c == 8 || c == 127)) [
      | inl back ↦ elim (Bool-cases (k.input.e == k.input.w)) [
        | inl nothing ↦
            let none_left : length line ≡ 0 =
              let e = h.e_at in let w = h.w_at in let f = h.fits in ground arith in
            let e = h.e_at in
            rw (a, b, back, nothing, press, key)
              (cut-Holds k h (length line - 1) (omega (arith, none_left)) k.input refl refl refl
                (omega (arith, e, none_left)))
        | inr something ↦
            rw (a, b, back, something, press, key) (erase-Holds k h (nonempty k h something))
      ]
      | inr d ↦ elim (Bool-cases (not (c == 0) && ltb (length ready + length line) 128)) [
        | inl room ↦
            let t = test k h c ∙ room in
            rw (a, b, d, t, room, press, key)
              (enter-Holds k h (newline c) (ground arith) (ground arith))
        | inr no_room ↦ let t = test k h c ∙ no_room in rw (a, b, d, t, no_room, press, key) h
      ]
    ]
  ]
]

-- consoleintr does to the ring what its keys do to the lines, one after the other: with room for
-- 128 bytes, and also when the indices wrap.
pub consoleintr-Holds :
    (cs : List ℕ) (k : Console) (p : Lines)
    → IsBytes cs
    → Holds k.input p
    → Holds (consoleintr cs k).input (press_all cs p)
unfolding consoleintr press_all IsBytes
consoleintr-Holds [] k p bytes h = h
consoleintr-Holds (c ∷ cs) k p bytes h =
    consoleintr-Holds cs (key c k) (press c p) (λ j hj. bytes (suc j) (omega arith))
      (key-Holds c k p (bytes 0 (omega arith)) h)
