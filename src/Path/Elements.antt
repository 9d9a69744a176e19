-- ===== src/Path/Elements.antt =====
-- skipelem, call by call, gives the elements of a path.
use operating_system.Common.{
  ℕ, zero, suc, ◌+◌, ◌≤◌, ◌<◌, ◌≡◌, refl, sym, subst, ap, ap₂, ◌∙◌, arith, true, false, leb, ◌==◌,
  if◌then◌else◌, List, [], ◌∷◌, ◌++◌, length, take, drop, Option, none, some, Bool-cases, inl, inr,
}
use operating_system.Path.{
  dirsiz, slash, is_nil, skip_slashes, element, past_element, copy_name, skip_from, skipelem,
}

-- the string in a buffer of `n` bytes: up to its first NUL
pub text : ℕ → List ℕ → List ℕ
text zero name = []
text (suc n) [] = []
text (suc n) (c ∷ cs) = if c == 0 then [] else c ∷ text n cs

-- The elements as the calls of skipelem give them, with fuel.
pub walk : ℕ → List ℕ → List ℕ → List (List ℕ)
walk zero path name = []
walk (suc fuel) path name = elim (skipelem path name) [
  | none ↦ []
  | some (rest, name') ↦ text dirsiz name' ∷ walk fuel rest name'
]

-- The pieces of a path between its slashes, the empty ones included.
pub add_char : ℕ → List (List ℕ) → List (List ℕ)
add_char c [] = (c ∷ []) ∷ []
add_char c (p ∷ ps) = (c ∷ p) ∷ ps

pub pieces : List ℕ → List (List ℕ)
pieces [] = [] ∷ []
pieces (c ∷ cs) = if c == slash then [] ∷ pieces cs else add_char c (pieces cs)

pub nonempty : List (List ℕ) → List (List ℕ)
nonempty [] = []
nonempty ([] ∷ ps) = nonempty ps
nonempty ((c ∷ cs) ∷ ps) = take dirsiz (c ∷ cs) ∷ nonempty ps

-- no character of a path is NUL
unfoldable pub IsString : List ℕ → Type 0
IsString [] = Unit
IsString (c ∷ cs) = (0 < c) × IsString cs

-- Each loop at a slash, and at another character.
at_slash :
    (c : ℕ) (cs : List ℕ)
    → (c == slash) ≡ true
    → (skip_slashes (c ∷ cs) ≡ skip_slashes cs)
      × (element (c ∷ cs) ≡ [])
      × (past_element (c ∷ cs) ≡ c ∷ cs)
      × (pieces (c ∷ cs) ≡ [] ∷ pieces cs)
unfolding pieces
at_slash c cs h = (rw h refl, rw h refl, rw h refl, rw h refl)

at_other :
    (c : ℕ) (cs : List ℕ)
    → (c == slash) ≡ false
    → (skip_slashes (c ∷ cs) ≡ c ∷ cs)
      × (element (c ∷ cs) ≡ c ∷ element cs)
      × (past_element (c ∷ cs) ≡ past_element cs)
      × (pieces (c ∷ cs) ≡ add_char c (pieces cs))
unfolding pieces
at_other c cs h = (rw h refl, rw h refl, rw h refl, rw h refl)

text-copy :
    (n : ℕ) (s name : List ℕ)
    → IsString s
    → text n (if leb n (length s) then take n s else s ++ 0 ∷ name) ≡ take n s
unfolding text IsString
text-copy zero s name h = refl
text-copy (suc n) [] name h = let short : leb (suc n) 0 ≡ false = ground arith in rw short refl
text-copy (suc n) (c ∷ cs) name (pos_c, h) =
    let nonzero : (c == 0) ≡ false = ground arith in
    let i = text-copy n cs name h in
    elim (Bool-cases (leb n (length cs))) [
      | inl long ↦
          let long' : leb (suc n) (suc (length cs)) ≡ true = ground arith in
          rw (long', nonzero) (ap (◌∷◌ c) (rw long at i))
      | inr short ↦
          let short' : leb (suc n) (suc (length cs)) ≡ false = ground arith in
          rw (short', nonzero) (ap (◌∷◌ c) (rw short at i))
    ]

element-IsString : (cs : List ℕ) → IsString cs → IsString (element cs)
unfolding IsString
element-IsString [] h = tt
element-IsString (c ∷ cs) (p, h) = elim (Bool-cases (c == slash)) [
  | inl here ↦ rw here tt
  | inr other ↦ rw other (p, element-IsString cs h)
]

past_element-IsString : (cs : List ℕ) → IsString cs → IsString (past_element cs)
unfolding IsString
past_element-IsString [] h = tt
past_element-IsString (c ∷ cs) (p, h) = elim (Bool-cases (c == slash)) [
  | inl here ↦ rw here (p, h)
  | inr other ↦ rw other (past_element-IsString cs h)
]

skip_slashes-IsString : (cs : List ℕ) → IsString cs → IsString (skip_slashes cs)
unfolding IsString
skip_slashes-IsString [] h = tt
skip_slashes-IsString (c ∷ cs) (p, h) = elim (Bool-cases (c == slash)) [
  | inl here ↦ rw here (skip_slashes-IsString cs h)
  | inr other ↦ rw other (p, h)
]

length-skip_slashes : (cs : List ℕ) → length (skip_slashes cs) ≤ length cs
length-skip_slashes [] = omega arith
length-skip_slashes (c ∷ cs) = let h = length-skip_slashes cs in ground arith

length-past_element : (cs : List ℕ) → length (past_element cs) ≤ length cs
length-past_element [] = omega arith
length-past_element (c ∷ cs) = let h = length-past_element cs in ground arith

-- What is left behind the slashes does not start with one.
skip_slashes-head :
    (path : List ℕ) (c : ℕ) (cs : List ℕ) → skip_slashes path ≡ c ∷ cs → (c == slash) ≡ false
skip_slashes-head [] c cs e = cc
skip_slashes-head (d ∷ ds) c cs e = elim (Bool-cases (d == slash)) [
  | inl here ↦ skip_slashes-head ds c cs (sym (at_slash d ds here).0 ∙ e)
  | inr other ↦
      let same : d ∷ ds ≡ c ∷ cs = sym (at_other d ds other).0 ∙ e in
      let dc : d ≡ c = cc in rw (← dc) other
]

-- Slashes in front make no element.
skip_slashes-nonempty : (cs : List ℕ) → nonempty (pieces (skip_slashes cs)) ≡ nonempty (pieces cs)
unfolding nonempty
skip_slashes-nonempty [] = refl
skip_slashes-nonempty (c ∷ cs) = elim (Bool-cases (c == slash)) [
  | inl here ↦
      let (skipped, _, _, cut) = at_slash c cs here in
      ap (λ x. nonempty (pieces x)) skipped ∙ (skip_slashes-nonempty cs ∙ sym (ap nonempty cut))
  | inr other ↦ ap (λ x. nonempty (pieces x)) (at_other c cs other).0
]

-- The first piece is the first element, and the others are those of the rest.
pieces-element :
    (cs : List ℕ)
    → (ps : List (List ℕ)) × (pieces cs ≡ element cs ∷ ps)
      × (nonempty ps ≡ nonempty (pieces (past_element cs)))
unfolding nonempty pieces add_char
pieces-element [] = ([], refl, refl)
pieces-element (c ∷ cs) = elim (Bool-cases (c == slash)) [
  | inl here ↦
      let (_, none_here, past, cut) = at_slash c cs here in
      (
        pieces cs,
        cut ∙ ap (λ e. e ∷ pieces cs) (sym none_here),
        sym (ap (λ x. nonempty (pieces x)) past ∙ ap nonempty cut),
      )
  | inr other ↦
      let (_, more, past, cut) = at_other c cs other in
      let (ps, e, h) = pieces-element cs in
      (
        ps,
        cut ∙ (ap (add_char c) e ∙ ap (λ x. x ∷ ps) (sym more)),
        h ∙ sym (ap (λ x. nonempty (pieces x)) past),
      )
]

-- What a call of skipelem does to the elements of the path: it takes the first, if there is one.
pub data Element (path : List ℕ) : Option (List ℕ × List ℕ) → Type 0 where
  none_left : nonempty (pieces path) ≡ [] → Element path none
  first :
      (rest name : List ℕ)
      → nonempty (pieces path) ≡ text dirsiz name ∷ nonempty (pieces rest)
      → IsString rest
      → length rest < length path
      → is_nil rest ≡ is_nil (nonempty (pieces rest))
      → Element path (some (rest, name))

-- A rest without slashes in front has a further element, or is empty.
skip_slashes-rest :
    (path q : List ℕ) → skip_slashes path ≡ q → is_nil q ≡ is_nil (nonempty (pieces q))
unfolding pieces nonempty
skip_slashes-rest path [] e = refl
skip_slashes-rest path (c ∷ cs) e =
    let (_, more, _, _) = at_other c cs (skip_slashes-head path c cs e) in
    let (ps, cut, _) = pieces-element (c ∷ cs) in
    sym (ap (λ x. is_nil (nonempty x)) (cut ∙ ap (λ x. x ∷ ps) more))

skip_from-Element :
    (path name q : List ℕ) → skip_slashes path ≡ q → IsString path → Element path (skip_from q name)
unfolding nonempty pieces
skip_from-Element path name [] e h =
    none_left (sym (skip_slashes-nonempty path) ∙ ap (λ x. nonempty (pieces x)) e)
skip_from-Element path name (c ∷ cs) e h =
    let (_, more, past, _) = at_other c cs (skip_slashes-head path c cs e) in
    let string : IsString (c ∷ cs) = subst IsString e (skip_slashes-IsString path h) in
    let (ps, cut, later) = pieces-element (c ∷ cs) in
    let copied : text dirsiz (copy_name (element (c ∷ cs)) name) ≡ take dirsiz (element (c ∷ cs)) =
      text-copy dirsiz (element (c ∷ cs)) (drop (length (element (c ∷ cs)) + 1) name)
        (element-IsString (c ∷ cs) string) in
    let a = length-skip_slashes (past_element (c ∷ cs)) in
    let b : length (past_element (c ∷ cs)) ≡ length (past_element cs) = ap length past in
    let d = length-past_element cs in
    let g = length-skip_slashes path in
    let k : length (skip_slashes path) ≡ suc (length cs) = ap length e in
    let whole : nonempty (pieces path) ≡ take dirsiz (c ∷ element cs) ∷ nonempty ps =
      sym (ap (λ x. nonempty (pieces x)) (sym e) ∙ skip_slashes-nonempty path)
      ∙ ap nonempty (cut ∙ ap (λ x. x ∷ ps) more) in
    first (skip_slashes (past_element (c ∷ cs))) (copy_name (element (c ∷ cs)) name)
      (whole
        ∙ ap₂ (◌∷◌) (sym (copied ∙ ap (take dirsiz) more))
            (later ∙ sym (skip_slashes-nonempty (past_element (c ∷ cs)))))
      (skip_slashes-IsString (past_element (c ∷ cs)) (past_element-IsString (c ∷ cs) string))
      (omega (arith, a, b, d, g, k))
      (skip_slashes-rest (past_element (c ∷ cs)) (skip_slashes (past_element (c ∷ cs))) refl)

pub skipelem-Element : (path name : List ℕ) → IsString path → Element path (skipelem path name)
unfolding skipelem
skipelem-Element path name h = skip_from-Element path name (skip_slashes path) refl h

walk-Element :
    (fuel : ℕ) (path name : List ℕ) (o : Option (List ℕ × List ℕ))
    → skipelem path name ≡ o
    → Element path o
    → length path ≤ fuel
    → ((rest name' : List ℕ)
        → length rest < fuel
        → IsString rest
        → walk fuel rest name' ≡ nonempty (pieces rest))
    → walk (suc fuel) path name ≡ nonempty (pieces path)
unfolding walk
walk-Element fuel path name none e (none_left h) enough others = rw (walk, e) (sym h)
walk-Element fuel path name (some (rest, name')) e (first _ _ h string shorter _) enough others =
    rw (walk, e) (ap (◌∷◌ (text dirsiz name')) (others rest name' (omega arith) string) ∙ sym h)

-- Called until it gives a null pointer, skipelem gives the pieces of the path between its slashes
-- that are not empty, in order, each cut to DIRSIZ characters; the calls come to an end.
pub walk_lem :
    (fuel : ℕ) (path name : List ℕ)
    → length path < fuel
    → IsString path
    → walk fuel path name ≡ nonempty (pieces path)
walk_lem zero path name enough h = absurd (omega arith)
walk_lem (suc fuel) path name enough h =
    walk-Element fuel path name (skipelem path name) refl (skipelem-Element path name h)
      (omega arith) (λ rest name' lt string. walk_lem fuel rest name' lt string)
