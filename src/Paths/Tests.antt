-- ===== src/Paths/Tests.antt =====
-- Paths in a tree of two directories: the root, inode 1, has the directory "a", inode 2, which has
-- the file "f", inode 3.
use mit6_1810_why_tea_fo.Base.{
  ℕ, ◌≡◌, refl, Bool, true, false, ◌||◌, ◌&&◌, Option, some, none, List, [], ◌∷◌, ◌==◌,
  if◌then◌else◌,
}
use mit6_1810_why_tea_fo.Paths.{skipelem, namex, starts_at}
use mit6_1810_why_tea_fo.Paths.Elements.{elements}
use mit6_1810_why_tea_fo.Paths.Lookup.{EndsAt, walk, namei_lem}
use mit6_1810_why_tea_fo.Paths.Parent.{EndsWith, parent, nameiparent_lem}

abbrev is_dir : ℕ → Bool
is_dir ip = ip == 1 || ip == 2

abbrev dirlookup : ℕ → List ℕ → Option ℕ
dirlookup ip [] = none
dirlookup ip (c ∷ name) =
    if ip == 1 && c == b'a' then some 2 else if ip == 2 && c == b'f' then some 3 else none

-- "/a//f"
abbrev path : List ℕ
path = b'/' ∷ b'a' ∷ b'/' ∷ b'/' ∷ b'f' ∷ []

abbrev refs : ℕ → ℕ
refs x = if x == 2 then 1 else 0

namei_lem_example :
    EndsAt refs
      (walk is_dir dirlookup (starts_at path 2) (elements path))
      none
      (namex is_dir dirlookup false path 2 refs)
namei_lem_example = namei_lem is_dir dirlookup path 2 refs

nameiparent_lem_example :
    EndsWith is_dir dirlookup refs
      (parent is_dir dirlookup (starts_at path 2) (elements path))
      (namex is_dir dirlookup true path 2 refs)
nameiparent_lem_example = nameiparent_lem is_dir dirlookup path 2 refs

first_of_path : skipelem path ≡ some (b'f' ∷ [], b'a' ∷ [])
unfolding skipelem
first_of_path = refl
