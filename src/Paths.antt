-- ===== src/Paths.antt =====
-- The path names of kernel/fs.c: skipelem, namex, namei, nameiparent. A C string is the list of the
-- characters before its NUL, and `name` the characters before its NUL or all DIRSIZ of them. An
-- inode is a number; what a directory holds (ip->type, dirlookup) is an argument, and the state is
-- how many references each inode has.
pub mod Elements
pub mod Lookup
pub mod Parent
mod Tests
use mit6_1810_why_tea_fo.Base.{
  ℕ, zero, suc, ◌+◌, ◌-◌, Bool, true, false, not, ◌&&◌, Option, none, some, List, [], ◌∷◌, ◌==◌,
  if◌then◌else◌, length, take,
}
use mit6_1810_why_tea_fo.Store.{update}

abbrev pub dirsiz : ℕ
dirsiz = 14

-- `while(*path == '/') path++;`
pub skip_slashes : List ℕ → List ℕ
skip_slashes [] = []
skip_slashes (c ∷ path) = if c == b'/' then skip_slashes path else c ∷ path

-- What `while(*path != '/' && *path != 0) path++;` passes over, and where it stops.
pub element : List ℕ → List ℕ
element [] = []
element (c ∷ path) = if c == b'/' then [] else c ∷ element path

pub behind : List ℕ → List ℕ
behind [] = []
behind (c ∷ path) = if c == b'/' then c ∷ path else behind path

-- skipelem from its test for the end of the path on: the rest of the path, and the name
abbrev pub take_element : List ℕ → Option (List ℕ × List ℕ)
take_element [] = none
take_element (c ∷ path) = some (skip_slashes (behind (c ∷ path)), take dirsiz (element (c ∷ path)))

pub skipelem : List ℕ → Option (List ℕ × List ℕ)
unfolding skip_slashes element behind
skipelem path = take_element (skip_slashes path)

-- How namex ends: its inode, if it returns one, and for a parent the name it left in its buffer.
pub record Named : Type 0 where
  pub ip : Option ℕ
  pub name : Option (List ℕ)
  pub refs : ℕ → ℕ

pub data Result (A : Type 0) : Type 0 where
  ok : A → Result A
  out_of_fuel : Result A

-- One reference more, and one less.
unfoldable pub get : (ℕ → ℕ) → ℕ → ℕ → ℕ
get refs ip = update refs ip (refs ip + 1)

unfoldable pub put : (ℕ → ℕ) → ℕ → ℕ → ℕ
put refs ip = update refs ip (refs ip - 1)

abbrev pub ends : Option ℕ → Option (List ℕ) → (ℕ → ℕ) → Result Named
ends ip name refs = ok (record { ip = ip; name = name; refs = refs })

abbrev pub is_end : List ℕ → Bool
is_end [] = true
is_end (c ∷ path) = false

-- `is_dir ip` is `ip->type == T_DIR`; dirlookup takes a reference to the inode that it returns.
module _ (is_dir : ℕ → Bool) (dirlookup : ℕ → List ℕ → Option ℕ) (nameiparent : Bool) where
  -- behind the loop of namex
  abbrev pub last_ip : (refs : ℕ → ℕ) (ip : ℕ) → Result Named
  last_ip refs ip = if nameiparent then ends none none (put refs ip) else ends (some ip) none refs

  -- behind dirlookup in the loop of namex; `again` is the next round
  abbrev pub enter :
      (again : List ℕ → (ℕ → ℕ) → ℕ → Result Named) (rest : List ℕ) (refs : ℕ → ℕ) (ip : ℕ)
      → Option ℕ
      → Result Named
  enter again rest refs ip none = ends none none (put refs ip)
  enter again rest refs ip (some next) = again rest (put (get refs next) ip) next

  -- a round of the loop behind skipelem
  abbrev pub round :
      (again : List ℕ → (ℕ → ℕ) → ℕ → Result Named) (refs : ℕ → ℕ) (ip : ℕ)
      → Option (List ℕ × List ℕ)
      → Result Named
  round again refs ip none = last_ip refs ip
  round again refs ip (some (rest, name)) =
      if not (is_dir ip)
      then ends none none (put refs ip)
      else if nameiparent && is_end rest
      then ends (some ip) (some name) refs
      else enter again rest refs ip (dirlookup ip name)

  -- the loop of namex
  pub namex_loop : (fuel : ℕ) (path : List ℕ) (refs : ℕ → ℕ) (ip : ℕ) → Result Named
  unfolding skipelem get put
  namex_loop zero path refs ip = out_of_fuel
  namex_loop (suc fuel) path refs ip = round (namex_loop fuel) refs ip (skipelem path)

abbrev pub root_ino : ℕ
root_ino = 1

-- iget(ROOTDEV, ROOTINO) or idup(myproc()->cwd)
abbrev pub starts_at : (path : List ℕ) (cwd : ℕ) → ℕ
starts_at [] cwd = cwd
starts_at (c ∷ path) cwd = if c == b'/' then root_ino else cwd

-- namex; its loop takes one more round than the path has characters, at most.
pub namex :
    (is_dir : ℕ → Bool) (dirlookup : ℕ → List ℕ → Option ℕ) (nameiparent : Bool) (path : List ℕ)
    (cwd : ℕ) (refs : ℕ → ℕ)
    → Result Named
unfolding namex_loop
namex is_dir dirlookup nameiparent path cwd refs =
    let ip = starts_at path cwd in
    namex_loop is_dir dirlookup nameiparent (length path + 1) path (get refs ip) ip
