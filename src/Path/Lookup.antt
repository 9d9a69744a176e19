-- ===== src/Path/Lookup.antt =====
-- namex of fs.c, over the inode operations that it calls.
pub mod Resolve
use operating_system.Common.{
  ℕ, zero, suc, ◌+◌, ◌&&◌, not, Bool, true, false, ◌==◌, if◌then◌else◌, List, [], ◌∷◌, Option, none,
  some, length, Result, ok, panic, ◌>>=◌,
}
use operating_system.Path.{slash, is_nil, skipelem}

-- An inode is an address. `is_dir` is the test of its type against T_DIR, `root` is
-- `iget(ROOTDEV, ROOTINO)`.
pub record Services (W : Type 0) : Type 0 where
  pub root : W → Result (ℕ × W)
  pub idup : ℕ → W → Result W
  pub ilock : ℕ → W → Result W
  pub iunlock : ℕ → W → Result W
  pub iput : ℕ → W → Result W
  pub is_dir : ℕ → W → Bool
  pub dirlookup : ℕ → List ℕ → W → Result (Option ℕ × W)

abbrev pub starts_at_root : List ℕ → Bool
starts_at_root [] = false
starts_at_root (c ∷ cs) = c == slash

-- the inode that is found, if any, the buffer `name`, and the world
abbrev pub Outcome : Type 0 → Type 0
Outcome W = Result (Option ℕ × List ℕ × W)

module _ {W : Type 0} (sv : Services W) where
  pub iunlockput : ℕ → W → Result W
  iunlockput ip w = sv.iunlock ip w >>= sv.iput ip

  abbrev pub give_up : ℕ → List ℕ → W → Outcome W
  give_up ip name w = iunlockput ip w >>= λ w'. ok (none, name, w')

  -- behind the loop
  abbrev pub at_end : Bool → ℕ → List ℕ → W → Outcome W
  at_end true ip name w = sv.iput ip w >>= λ w'. ok (none, name, w')
  at_end false ip name w = ok (some ip, name, w)

  abbrev pub go_on : (ℕ → W → Outcome W) → ℕ → List ℕ → Option ℕ × W → Outcome W
  go_on loop ip name (none, w) = give_up ip name w
  go_on loop ip name (some next, w) = iunlockput ip w >>= loop next

  -- a round of the loop, with `ip` locked
  abbrev pub in_dir : Bool → (ℕ → W → Outcome W) → ℕ → (rest name : List ℕ) → W → Outcome W
  in_dir parent loop ip rest name w =
      if not (sv.is_dir ip w)
      then give_up ip name w
      else if parent && is_nil rest
      then (sv.iunlock ip w >>= λ w'. ok (some ip, name, w'))
      else (sv.dirlookup ip name w >>= go_on loop ip name)

  -- The loop of `namex`, with fuel.
  pub namex_loop : ℕ → Bool → (path name : List ℕ) → ℕ → W → Outcome W
  namex_loop zero parent path name ip w = panic "out of fuel"
  namex_loop (suc fuel) parent path name ip w = elim (skipelem path name) [
    | none ↦ at_end parent ip name w
    | some (rest, name') ↦
        sv.ilock ip w >>= in_dir parent (namex_loop fuel parent rest name') ip rest name'
  ]

  -- The start: the root, or the current directory.
  abbrev pub start_at : Bool → (cwd : ℕ) → W → Result (ℕ × W)
  start_at true cwd w = sv.root w
  start_at false cwd w = sv.idup cwd w >>= λ w'. ok (cwd, w')

  pub namex : Bool → (cwd : ℕ) → (path name : List ℕ) → W → Outcome W
  namex parent cwd path name w = start_at (starts_at_root path) cwd w >>= λ r.
      namex_loop (length path + 1) parent path name r.0 r.1
