-- ===== src/Path/Examples.antt =====
-- The path "/a//bb" in a tree with three inodes.
use operating_system.Common.{
  ℕ, ◌+◌, ◌-◌, ◌≡◌, arith, ◌&&◌, Bool, ltb, ◌==◌, if◌then◌else◌, List, [], ◌∷◌, Option, none, some,
  ok,
}
use operating_system.Path.{dirsiz}
use operating_system.Path.Elements.{text, pieces, nonempty, IsString, walk, walk_lem}
use operating_system.Path.Lookup.{Services}
use operating_system.Path.Lookup.Resolve.{count}

abbrev a_bb : List ℕ
a_bb = 47 ∷ 97 ∷ 47 ∷ 47 ∷ 98 ∷ 98 ∷ []

abbrev blank : List ℕ
blank = 0 ∷ 0 ∷ 0 ∷ 0 ∷ 0 ∷ 0 ∷ 0 ∷ 0 ∷ 0 ∷ 0 ∷ 0 ∷ 0 ∷ 0 ∷ 0 ∷ []

a_bb-IsString : IsString a_bb
unfolding IsString
a_bb-IsString =
    (omega arith, (omega arith, (omega arith, (omega arith, (omega arith, (omega arith, tt))))))

walk_lem_example : walk 7 a_bb blank ≡ nonempty (pieces a_bb)
walk_lem_example = walk_lem 7 a_bb blank (omega arith) a_bb-IsString

-- inode 1 is the root and has the directory 2 as "a", which has the file 3 as "bb"
abbrev is_directory : ℕ → Bool
is_directory ip = ltb ip 3

abbrev entry : ℕ → List ℕ → Option ℕ
entry ip [] = none
entry ip (c ∷ cs) =
    if ip == 1 && c == 97 then some 2 else if ip == 2 && c == 98 then some 3 else none

abbrev take_ref : Option ℕ → (ℕ → ℕ) → ℕ → ℕ
take_ref o refs j = refs j + count j o

-- the world is the counts of references
abbrev counting : Services (ℕ → ℕ)
counting = record {
  root = λ w. ok (1, take_ref (some 1) w);
  idup = λ ip w. ok (take_ref (some ip) w);
  ilock = λ ip w. ok w;
  iunlock = λ ip w. ok w;
  iput = λ ip w. ok (λ j. if ip == j then w j - 1 else w j);
  is_dir = λ ip w. is_directory ip;
  dirlookup =
      λ ip name w. ok (entry ip (text dirsiz name), take_ref (entry ip (text dirsiz name)) w);
}
