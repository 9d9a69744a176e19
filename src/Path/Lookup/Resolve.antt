-- ===== src/Path/Lookup/Resolve.antt =====
-- namex finds what the elements of the path lead to, and keeps the counts of references.
use operating_system.Common.{
  ℕ, ◌+◌, ◌<◌, ◌≡◌, ◌&&◌, not, Bool, ◌==◌, if◌then◌else◌, List, [], ◌∷◌, Option, none, some, Result,
  ok,
}
use operating_system.Path.{dirsiz, is_nil}
use operating_system.Path.Elements.{text}
use operating_system.Path.Lookup.{Services}

-- how often an inode is the one that is found
abbrev pub count : ℕ → Option ℕ → ℕ
count j none = 0
count j (some i) = if i == j then 1 else 0

-- Where the elements lead to from `ip`, in a tree of directories; with `parent`, one element before.
pub resolve :
    (isdir : ℕ → Bool) (find : ℕ → List ℕ → Option ℕ) → Bool → ℕ → List (List ℕ) → Option ℕ
resolve isdir find parent ip [] = if parent then none else some ip
resolve isdir find parent ip (e ∷ es) =
    if not (isdir ip)
    then none
    else if parent && is_nil es
    then some ip
    else elim (find ip e) [ none ↦ none | some next ↦ resolve isdir find parent next es ]

module _ {W : Type 0} (sv : Services W) (isdir : ℕ → Bool) (find : ℕ → List ℕ → Option ℕ)
    (root_ip : ℕ) where
  -- What namex relies on of the inode operations, where no other process changes a directory on the
  -- path and no call panics: the types and the entries of the directories are those of the tree, and
  -- each call takes or drops the reference that it is there for.
  pub record Laws (refs : W → ℕ → ℕ) : Type 0 where
    pub roots :
        (w : W)
        → (w' : W) × (sv.root w ≡ ok (root_ip, w'))
          × ((j : ℕ) → refs w' j ≡ refs w j + count j (some root_ip))
    pub dups :
        (ip : ℕ) (w : W)
        → (w' : W) × (sv.idup ip w ≡ ok w') × ((j : ℕ) → refs w' j ≡ refs w j + count j (some ip))
    pub types : (ip : ℕ) (w : W) → sv.is_dir ip w ≡ isdir ip
    pub locks : (ip : ℕ) (w : W) → (w' : W) × (sv.ilock ip w ≡ ok w') × (refs w' ≡ refs w)
    pub unlocks : (ip : ℕ) (w : W) → (w' : W) × (sv.iunlock ip w ≡ ok w') × (refs w' ≡ refs w)
    pub puts :
        (ip : ℕ) (w : W)
        → 0 < refs w ip
        → (w' : W) × (sv.iput ip w ≡ ok w') × ((j : ℕ) → refs w' j + count j (some ip) ≡ refs w j)
    pub looks :
        (ip : ℕ) (name : List ℕ) (w : W)
        → (w' : W) × (sv.dirlookup ip name w ≡ ok (find ip (text dirsiz name), w'))
          × ((j : ℕ) → refs w' j ≡ refs w j + count j (find ip (text dirsiz name)))

  module _ {refs : W → ℕ → ℕ} (laws : Laws refs) where
    -- The outcome is `o`, the reference to `ip` is dropped, and one to what is found is taken.
    pub Found : ℕ → Option ℕ → (ℕ → ℕ) → Result (Option ℕ × List ℕ × W) → Type 0
    Found ip o before r =
        (name : List ℕ) × (w' : W) × (r ≡ ok (o, name, w'))
        × ((j : ℕ) → refs w' j + count j (some ip) ≡ before j + count j o)

    abbrev start : Bool → ℕ → ℕ
    start b cwd = if b then root_ip else cwd
