-- ===== src/Log/Space.antt =====
-- What the system calls leave of the log, and why it has room for their blocks.
use operating_system.Common.{
  ℕ, suc, ◌+◌, ◌-◌, ◌*◌, ◌≤◌, ◌<◌, ◌≡◌, inl, inr, refl, sym, subst, ap, ◌∙◌, arith, ◌||◌, Bool,
  true, false, leb, ◌==◌, List, [], ◌∷◌, ◌++◌, none, some, length, length-append, Bool-cases, ok,
  passed, granted, ok-injective, some-injective,
}
use operating_system.Common.Int.{pos}
use operating_system.Log.{
  Block, Store, Log, is_logged, absorb, commit, begin_op, end_op_start, end_op_commit, log_write,
  logsize, maxopblocks, one_more, one_less, short_of_space, is_zero, below_one,
}
use operating_system.Log.Loops.{in_area}
use operating_system.Log.Phases.{IsReady, commit-IsDone}
use operating_system.Log.Steps.{
  sum-append, Each, sum-Each, Each-change, Step, begins, writes, ends, commits, charged, Invariant,
}

is_logged-append : (b c : ℕ) (bs : List ℕ) → is_logged b (bs ++ c ∷ []) ≡ (is_logged b bs || c == b)
unfolding is_logged
is_logged-append b c [] = ground arith
is_logged-append b c (x ∷ bs) = let h = is_logged-append b c bs in ground arith

is_logged_same : (b c : ℕ) (bs : List ℕ) → (c == b) ≡ true → is_logged b bs ≡ is_logged c bs
is_logged_same b c bs h = let e : c ≡ b = ground arith in ap (λ x. is_logged x bs) (sym e)

is_logged-absorb : (b c : ℕ) (bs : List ℕ) → is_logged b (absorb c bs) ≡ (is_logged b bs || c == b)
is_logged-absorb b c bs = elim (Bool-cases (is_logged c bs)) [
  | inl there ↦ elim (Bool-cases (c == b)) [
    | inl here ↦ let e = is_logged_same b c bs here in ground arith
    | inr elsewhere ↦ ground arith
  ]
  | inr new ↦ rw new (is_logged-append b c bs)
]

length-absorb : (c : ℕ) (bs : List ℕ) → length (absorb c bs) ≤ length bs + 1
length-absorb c bs = let e = length-append bs (c ∷ []) in ground arith

Invariant-IsReady : {l : Log} {s : Store} {left : List ℕ} → Invariant l s left → IsReady l s
Invariant-IsReady i = record {
  outside = λ b h. let o = i.outside b h in let p = i.space in ground arith;
  listed = i.listed;
  cleared = i.cleared;
}

outstanding-begin :
    (l : Log) (n : ℕ)
    → l.outstanding ≡ pos n
    → short_of_space (length l.blocks) l.outstanding ≡ false
    → (length l.blocks + (n + 1) * maxopblocks ≤ logsize) × (one_more l.outstanding ≡ pos (suc n))
outstanding-begin l n e h =
    let h' : short_of_space (length l.blocks) (pos n) ≡ false = rw e at h in
    (ground arith, ap one_more e)

begins-Invariant :
    (l : Log) (s : Store) (left : List ℕ) (l' : Log)
    → Invariant l s left
    → begin_op l ≡ some l'
    → Invariant l' s (maxopblocks ∷ left)
unfolding begin_op Each
begins-Invariant l s left l' i e =
    let (_, e1) = granted l.committing _ e in
    let (room, e2) = granted (short_of_space (length l.blocks) l.outstanding) _ e1 in
    let (fits, more) = outstanding-begin l (length left) i.count room in
    subst (λ m. Invariant m s (maxopblocks ∷ left)) (some-injective e2)
      (record {
        count = more;
        each = (omega arith, i.each);
        space = let b = sum-Each left i.each in omega arith;
        idle = λ h. absurd (busy h);
        outside = i.outside;
        listed = i.listed;
        cleared = i.cleared;
      })
  where
    busy : l.committing ≡ true → ⊥
    busy h = let (free, _) = granted l.committing _ e in cc

writes-Invariant :
    (l : Log) (s : Store) (xs ys : List ℕ) (k b : ℕ) (d : Block) (l' : Log) (s' : Store)
    → Invariant l s (xs ++ suc k ∷ ys)
    → in_area l.start logsize b ≡ false
    → log_write b d l s ≡ ok (l', s')
    → Invariant l' s' (xs ++ k ∷ ys)
unfolding log_write
writes-Invariant l s xs ys k b d l' s' i o e =
    let (_, e1) =
      passed (leb logsize (length l.blocks) || leb (l.size - 1) (length l.blocks))
        "too big a transaction" _ e in
    let (_, e2) = passed (below_one l.outstanding) "log_write outside of trans" _ e1 in
    subst {A = Log × Store} (λ m. Invariant m.0 m.1 (xs ++ k ∷ ys)) (ok-injective e2)
      (record {
        count = i.count ∙ ap pos (length-append xs (suc k ∷ ys) ∙ sym (length-append xs (k ∷ ys)));
        each = (Each-change xs ys (suc k) i.each).1 k (omega arith);
        space =
            let p = sum-append xs (suc k ∷ ys) in
            let q = sum-append xs (k ∷ ys) in
            let r = length-absorb b l.blocks in let t = i.space in omega arith;
        idle = λ h. absurd (nonempty xs (i.idle h));
        outside = λ c h. elim (Bool-cases (is_logged c l.blocks)) [
          | inl old ↦ i.outside c old
          | inr new ↦
              let a = is_logged-absorb c b l.blocks in
              let here : b ≡ c = ground arith in
              subst (λ x. in_area l.start logsize x ≡ false) here o
        ];
        listed = λ c h.
            let a = is_logged-absorb c b l.blocks in
            let old : s.dirty c ≡ none = i.listed c (ground arith) in ground arith;
        cleared = i.cleared;
      })
  where
    nonempty : (zs : List ℕ) → zs ++ suc k ∷ ys ≡ [] → ⊥
    nonempty [] h = cc
    nonempty (z ∷ zs) h = cc

ends-Invariant :
    (l : Log) (s : Store) (xs ys : List ℕ) (k : ℕ) (c : Bool) (l' : Log)
    → Invariant l s (xs ++ k ∷ ys)
    → end_op_start l ≡ ok (c, l')
    → Invariant l' s (xs ++ ys)
unfolding end_op_start
ends-Invariant l s xs ys k c l' i e =
    let (free, e1) = passed l.committing "log.committing" _ e in
    elim (Bool-cases (is_zero (one_less l.outstanding))) [
      | inl last ↦
          subst (λ m. Invariant m s (xs ++ ys))
            (ap (λ (r : Bool × Log). r.1) (ok-injective (rw last at e1)))
            (ended true (λ h. no_ops (xs ++ ys) (rw less at last)))
      | inr more ↦
          subst (λ m. Invariant m s (xs ++ ys))
            (ap (λ (r : Bool × Log). r.1) (ok-injective (rw more at e1)))
            (ended l.committing (λ h. cc))
    ]
  where
    shorter : length (xs ++ k ∷ ys) ≡ suc (length (xs ++ ys))
    shorter = let p = length-append xs (k ∷ ys) in let q = length-append xs ys in omega arith

    less : one_less l.outstanding ≡ pos (length (xs ++ ys))
    less = ap one_less (i.count ∙ ap pos shorter)

    no_ops : (zs : List ℕ) → is_zero (pos (length zs)) ≡ true → zs ≡ []
    no_ops [] h = refl
    no_ops (z ∷ zs) h = cc

    ended :
        (flag : Bool)
        → (flag ≡ true → xs ++ ys ≡ [])
        → Invariant
            (record l { outstanding = one_less l.outstanding; committing = flag })
            s
            (xs ++ ys)
    ended flag idle = record {
      count = less;
      each = (Each-change xs ys k i.each).0;
      space =
          let p = sum-append xs (k ∷ ys) in
          let q = sum-append xs ys in let t = i.space in omega arith;
      idle = idle;
      outside = i.outside;
      listed = i.listed;
      cleared = i.cleared;
    }

commit_kept :
    (l : Log) (s : Store)
    → ((commit l s).0.start ≡ l.start) × ((commit l s).0.outstanding ≡ l.outstanding)
unfolding commit
commit_kept l s = ground arith

commits-Invariant :
    (l : Log) (s : Store)
    → Invariant l s []
    → length l.blocks + length l.blocks + 1 < s.power
    → Invariant (end_op_commit s (true, l)).0 (end_op_commit s (true, l)).1 []
unfolding is_logged
commits-Invariant l s i p =
    let d = commit-IsDone l s (Invariant-IsReady i) p in
    let (same_start, same_count) = commit_kept l s in
    record {
      count = same_count ∙ i.count;
      each = i.each;
      space = rw d.blocks (omega arith);
      idle = λ h. cc;
      outside = λ b h. absurd (unlogged b (subst (λ bs. is_logged b bs ≡ true) d.blocks h));
      listed = λ b h. d.clean b;
      cleared = ap (λ x. (commit l s).1.disk x 0) same_start ∙ d.cleared;
    }
  where
    unlogged : (b : ℕ) → is_logged b [] ≡ true → ⊥
    unlogged b h = cc

-- A history of the log from a mount on.
pub data Reach : Log → Store → List ℕ → Type 0 where
  mounted : (l : Log) (s : Store) → Invariant l s [] → Reach l s []
  later :
      {l l' : Log} {s s' : Store} {left left' : List ℕ}
      → Reach l s left
      → Step l s left l' s' left'
      → Reach l' s' left'

pub Step-Invariant :
    {l l' : Log} {s s' : Store} {left left' : List ℕ}
    → Step l s left l' s' left'
    → Invariant l s left
    → Invariant l' s' left'
Step-Invariant {l} {s = s} (begins left l' e) i = begins-Invariant l s left l' i e
Step-Invariant {l} {s = s} (writes xs ys k b d l' s' o e) i =
    writes-Invariant l s xs ys k b d l' s' i o e
Step-Invariant {l} {s = s} (ends xs ys k c l' e) i = ends-Invariant l s xs ys k c l' i e
Step-Invariant {l} {s = s} (commits x h p e) i =
    subst {A = Log × Store} (λ m. Invariant m.0 m.1 []) e (commits-Invariant l s i p)
Step-Invariant (charged left p) i = record {
  count = i.count;
  each = i.each;
  space = i.space;
  idle = i.idle;
  outside = i.outside;
  listed = i.listed;
  cleared = i.cleared;
}

pub Reach-Invariant : {l : Log} {s : Store} {left : List ℕ} → Reach l s left → Invariant l s left
Reach-Invariant (mounted l s i) = i
Reach-Invariant (later r st) = Step-Invariant st (Reach-Invariant r)
