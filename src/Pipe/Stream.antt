-- ===== src/Pipe/Stream.antt =====
-- What a reader gets of a pipe is what the writer put in, in that order.
use mathlib.Core.List.{append_assoc, append-nil}
use native.Mathlib.Nat.{sub_self}
use operating_system.Common.{
  ℕ, zero, suc, ◌+◌, ◌-◌, ◌%◌, ◌≡◌, refl, arith, ap, ap₂, sym, ◌∙◌, Bool, true, false, not, ◌||◌,
  ◌&&◌, leb, if◌then◌else◌, List, [], ◌∷◌, ◌++◌, length, take, drop, Bool-cases, inl, inr, get_or,
  take-append-drop, length-drop, take-nil, drop-nil,
}
use operating_system.Common.Int.{pos, negsuc}
use operating_system.Pipe.{
  Pipe, pipe_size, u32, full, empty, put, pipewrite, piperead, read_loop, WriteRun, ReadRun,
  returned, sleeping, at_nread, at_nwrite,
}
use operating_system.Pipe.Ring.{
  IsValid, waiting, contents, put-IsValid, contents-put, contents-read, read-IsValid, empty-waiting,
}

-- the room that is left
abbrev pub room : Pipe → ℕ
room p = pipe_size - waiting p

-- A stretch of pipewrite that starts with room for `k` bytes puts the first `k` of its bytes behind
-- those that wait. It returns `n` if that is all of them. Else it stands before a full pipe with
-- the others left: it fails if no reader is left or it was killed, and sleeps if not.
abbrev pub WriteSpec : Bool → ℕ → List ℕ → Pipe → ℕ → WriteRun → Type 0
WriteSpec killed n cs p k r =
    IsValid r.pipe
    × (contents r.pipe ≡ contents p ++ take k cs)
    × (r.rest ≡ drop k cs)
    × (r.ending ≡ (
        if leb (length cs) k
        then returned (pos n)
        else if not p.readopen || killed
        then returned (negsuc 0)
        else sleeping at_nwrite))

module _ (killed : Bool) (n c : ℕ) (cs : List ℕ) (p : Pipe) where
  write_full :
      full p ≡ true
      → pipewrite killed n (c ∷ cs) p ≡ (
          if not p.readopen || killed
          then record { pipe = p; ending = returned (negsuc 0); rest = c ∷ cs; wakes = [] }
          else record {
            pipe = p;
            ending = sleeping at_nwrite;
            rest = c ∷ cs;
            wakes = at_nread ∷ [];
          })
  unfolding pipewrite
  write_full e = rw (e, pipewrite)

  write_more : full p ≡ false → pipewrite killed n (c ∷ cs) p ≡ pipewrite killed n cs (put p c)
  unfolding pipewrite
  write_more e = rw (e, pipewrite)

write_room :
    (killed : Bool) (n : ℕ) (cs : List ℕ) (p : Pipe) (k : ℕ)
    → IsValid p
    → waiting p + k ≡ pipe_size
    → WriteSpec killed n cs p k (pipewrite killed n cs p)
write_room killed n [] p zero v e = unfold pipewrite in (v, sym (append-nil _), refl, refl)
write_room killed n [] p (suc k) v e =
    unfold pipewrite in (v, sym (append-nil _), refl, ground arith)
write_room killed n (c ∷ cs) p zero v e =
    let no_room : full p ≡ true = ground arith in
    rw (write_full killed n c cs p no_room) (elim (Bool-cases (not p.readopen || killed)) [
      | inl gone ↦ rw gone (v, sym (append-nil _), refl, ground arith)
      | inr stay ↦ rw stay (v, sym (append-nil _), refl, ground arith)
    ])
write_room killed n (c ∷ cs) p (suc k) v e =
    let some_room : full p ≡ false = ground arith in
    let more = contents-put c v some_room in
    let (v', content', rest', ending') =
      write_room killed n cs (put p c) k (put-IsValid c v some_room) (ground arith) in
    rw (write_more killed n c cs p some_room) (
      v',
      content' ∙ ap (λ xs. xs ++ take k cs) more ∙ append_assoc (contents p) (c ∷ []) (take k cs),
      rest',
      ending' ∙ ground arith,
    )

-- pipewrite puts as many of its bytes behind those that wait as there is room for.
pub pipewrite_lem :
    (killed : Bool) (n : ℕ) (cs : List ℕ) (p : Pipe)
    → IsValid p
    → WriteSpec killed n cs p (room p) (pipewrite killed n cs p)
pipewrite_lem killed n cs p v = write_room killed n cs p (room p) v (omega arith)

module _ (n : ℕ) (p : Pipe) where
  read_empty : empty p ≡ true → read_loop (suc n) p ≡ ([], p)
  unfolding read_loop
  read_empty e = rw (e, read_loop)

  abbrev advance : Pipe
  advance = record p { nread = u32 (p.nread + 1) }

  read_more :
      empty p ≡ false
      → read_loop (suc n) p
        ≡ (get_or p.buf (p.nread % pipe_size) 0 ∷ (read_loop n advance).0, (read_loop n advance).1)
  unfolding read_loop
  read_more e = rw (e, read_loop)

abbrev ReadLoop : ℕ → Pipe → List ℕ × Pipe → Type 0
ReadLoop n p (cs, p') =
    IsValid p' × (cs ≡ take n (contents p)) × (contents p' ≡ drop n (contents p))

read_loop_lem : (n : ℕ) (p : Pipe) → IsValid p → ReadLoop n p (read_loop n p)
read_loop_lem zero p v = unfold read_loop in (v, refl, refl)
read_loop_lem (suc n) p v = elim (Bool-cases (empty p)) [
  | inl none_left ↦ rw (read_empty n p none_left, empty-waiting v none_left) (v, refl, refl)
  | inr more ↦
      let (v', got, left) = read_loop_lem n (advance n p) (read-IsValid v more) in
      rw (read_more n p more, contents-read v more)
        (v', ap (◌∷◌ (get_or p.buf (p.nread % pipe_size) 0)) got, left)
]

-- whether a reader has to wait
abbrev pub dry : Pipe → Bool
dry p = empty p && p.writeopen

-- A stretch of piperead takes the first `n` bytes that wait. On an empty pipe with an open writer it
-- fails if it was killed, and sleeps if not; else it returns how many it took, and wakes the writers.
abbrev pub ReadSpec : Bool → ℕ → Pipe → ReadRun → Type 0
ReadSpec killed n p r =
    IsValid r.pipe
    × (r.got ≡ take n (contents p))
    × (contents r.pipe ≡ drop n (contents p))
    × (r.ending ≡ (
        if dry p
        then if killed then returned (negsuc 0) else sleeping at_nread
        else returned (pos (length (take n (contents p))))))
    × (r.wakes ≡ (if dry p then [] else at_nwrite ∷ []))

read_dry :
    (killed : Bool) (n : ℕ) (p : Pipe)
    → IsValid p
    → dry p ≡ true
    → waiting p ≡ 0
    → ReadSpec killed n p (piperead killed n p)
unfolding piperead
read_dry true n p v e w = rw (e, w, take-nil ℕ n, drop-nil ℕ n) (v, refl, refl, refl, refl)
read_dry false n p v e w = rw (e, w, take-nil ℕ n, drop-nil ℕ n) (v, refl, refl, refl, refl)

read_go :
    (killed : Bool) (n : ℕ) (p : Pipe)
    → IsValid p
    → dry p ≡ false
    → ReadSpec killed n p (piperead killed n p)
unfolding piperead
read_go killed n p v e =
    let (v', got, left) = read_loop_lem n p v in
    rw e (v', got, left, ap (λ (xs : List ℕ). returned (pos (length xs))) got, refl)

pub piperead_lem :
    (killed : Bool) (n : ℕ) (p : Pipe) → IsValid p → ReadSpec killed n p (piperead killed n p)
piperead_lem killed n p v = elim (Bool-cases (dry p)) [
  | inl wait ↦ read_dry killed n p v wait (empty-waiting v (ground arith))
  | inr go ↦ read_go killed n p v go
]

-- calls on a pipe, in any order: a stretch of a write, or of a read
pub data Call : Type 0 where
  write : (killed : Bool) → List ℕ → Call
  read : (killed : Bool) → ℕ → Call

pub record Trace : Type 0 where
  pub pipe : Pipe
  pub put_in : List ℕ
  pub got_out : List ℕ

-- The bytes of a write that are not left over were put.
abbrev accepted : List ℕ → WriteRun → List ℕ
accepted cs r = take (length cs - length r.rest) cs

unfoldable pub trace : Pipe → List Call → Trace
trace p [] = record { pipe = p; put_in = []; got_out = [] }
trace p (write killed cs ∷ calls) =
    let r = pipewrite killed (length cs) cs p in
    let t = trace r.pipe calls in record t { put_in = accepted cs r ++ t.put_in }
trace p (read killed n ∷ calls) =
    let r = piperead killed n p in
    let t = trace r.pipe calls in record t { got_out = r.got ++ t.got_out }

take-accepted : (k : ℕ) (cs : List ℕ) → take (length cs - length (drop k cs)) cs ≡ take k cs
take-accepted zero cs = rw (sub_self (length cs)) refl
take-accepted (suc k) [] = refl
take-accepted (suc k) (c ∷ cs) =
    let more : suc (length cs) - length (drop k cs) ≡ suc (length cs - length (drop k cs)) =
      omega (arith, length-drop k cs) in
    rw more (ap (◌∷◌ c) (take-accepted k cs))

-- Whatever the interleaving of writes and reads, no byte is lost, doubled or reordered.
pub trace_fifo :
    (calls : List Call) (p : Pipe)
    → IsValid p
    → (trace p calls).got_out ++ contents (trace p calls).pipe
      ≡ contents p ++ (trace p calls).put_in
unfolding trace
trace_fifo [] p v = sym (append-nil (contents p))
trace_fifo (write killed cs ∷ calls) p v =
    let r = pipewrite killed (length cs) cs p in
    let t = trace r.pipe calls in
    let (v', content, rest, _) = pipewrite_lem killed (length cs) cs p v in
    let took : accepted cs r ≡ take (room p) cs =
      ap (λ (xs : List ℕ). take (length cs - length xs) cs) rest ∙ take-accepted (room p) cs in
    trace_fifo calls r.pipe v'
    ∙ ap (λ xs. xs ++ t.put_in) content
    ∙ append_assoc (contents p) (take (room p) cs) t.put_in
    ∙ ap (λ xs. contents p ++ (xs ++ t.put_in)) (sym took)
trace_fifo (read killed n ∷ calls) p v =
    let r = piperead killed n p in
    let t = trace r.pipe calls in
    let (v', got, left, _, _) = piperead_lem killed n p v in
    append_assoc r.got t.got_out (contents t.pipe)
    ∙ ap (λ xs. r.got ++ xs) (trace_fifo calls r.pipe v')
    ∙ ap₂ (λ xs ys. xs ++ (ys ++ t.put_in)) got left
    ∙ sym (append_assoc (take n (contents p)) (drop n (contents p)) t.put_in)
    ∙ ap (λ xs. xs ++ t.put_in) (take-append-drop n (contents p))
