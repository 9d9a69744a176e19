-- ===== src/Path.antt =====
-- The path names of fs.c. A path is the list of its characters, up to its NUL; `name` is a buffer of
-- DIRSIZ bytes, of which a shorter name ends at its first NUL.
pub mod Elements
pub mod Lookup
mod Examples
use operating_system.Common.{
  ℕ, zero, suc, ◌+◌, not, Bool, true, false, ltb, leb, ◌==◌, if◌then◌else◌, List, [], ◌∷◌, ◌++◌,
  length, take, drop, Option, none, some,
}

abbrev pub dirsiz : ℕ
dirsiz = 14

abbrev pub slash : ℕ
slash = 47

-- `*path == '\0'`
abbrev pub is_nil {ℓ} : {A : Type ℓ} → List A → Bool
is_nil [] = true
is_nil (x ∷ xs) = false

-- `while(*path == '/') path++`
abbrev pub skip_slashes : List ℕ → List ℕ
skip_slashes [] = []
skip_slashes (c ∷ cs) = if c == slash then skip_slashes cs else c ∷ cs

-- `while(*path != '/' && *path != 0) path++`: what it passes over, and where it stops
abbrev pub element : List ℕ → List ℕ
element [] = []
element (c ∷ cs) = if c == slash then [] else c ∷ element cs

abbrev pub past_element : List ℕ → List ℕ
past_element [] = []
past_element (c ∷ cs) = if c == slash then c ∷ cs else past_element cs

-- the buffer `name` with the element `s` copied into it
abbrev pub copy_name : List ℕ → List ℕ → List ℕ
copy_name s name =
    if leb dirsiz (length s) then take dirsiz s else s ++ 0 ∷ drop (length s + 1) name

abbrev pub skip_from : List ℕ → List ℕ → Option (List ℕ × List ℕ)
skip_from [] name = none
skip_from (c ∷ cs) name =
    some (skip_slashes (past_element (c ∷ cs)), copy_name (element (c ∷ cs)) name)

-- Gives the rest of the path and the new `name`, or none for a null pointer.
pub skipelem : List ℕ → List ℕ → Option (List ℕ × List ℕ)
skipelem path name = skip_from (skip_slashes path) name
