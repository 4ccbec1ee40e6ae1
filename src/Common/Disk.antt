-- ===== src/Common/Disk.antt =====
-- The parts of Go's path/filepath and os that the program uses.
-- A path is the list of the segments of a cleaned absolute path. A disk is a list of nodes by path,
-- with the paths at which the operating system refuses every operation (permissions, faults).
-- Not modelled: symbolic links, file modes, a full disk, and writes that stop half-way.
pub mod Laws
use llmp2p.Common.{
  ℕ, suc, Bool, true, false, not, ◌&&◌, ◌||◌, List, [], ◌∷◌, ◌++◌, Option, none, some, Result, ok,
  err, ◌>>=◌, ◌>>◌, if◌then◌else◌, length,
}
use llmp2p.Common.Bytes.{Bytes, codes, equal, less, split}

abbrev pub FilePath : Type 0
FilePath = List Bytes

unfoldable pub path_eq : FilePath → FilePath → Bool
unfolding equal
path_eq [] [] = true
path_eq (a ∷ p) (b ∷ q) = equal a b && path_eq p q
path_eq _ _ = false

-- `p` is `q` or a directory above it.
unfoldable pub is_above : FilePath → FilePath → Bool
unfolding equal
is_above [] q = true
is_above (a ∷ p) [] = false
is_above (a ∷ p) (b ∷ q) = equal a b && is_above p q

unfoldable pub parent : FilePath → FilePath
parent [] = []
parent (a ∷ []) = []
parent (a ∷ b ∷ p) = a ∷ parent (b ∷ p)

-- One segment of `filepath.Clean`, at an absolute path.
unfoldable pub push : FilePath → Bytes → FilePath
unfolding equal parent
push p seg =
    if equal seg [] || equal seg (codes ".")
    then p
    else if equal seg (codes "..")
    then parent p
    else p ++ seg ∷ []

unfoldable pub push_all : FilePath → List Bytes → FilePath
unfolding push
push_all p [] = p
push_all p (seg ∷ segs) = push_all (push p seg) segs

-- `filepath.Join(p, elem)`
unfoldable pub join_path : FilePath → Bytes → FilePath
unfolding push_all split
join_path p elem = push_all p (split b'/' elem)

pub data Node : Type 0 where
  file : Bytes → Node
  dir : Node

pub data IoError : Type 0 where
  not_exist denied is_directory not_directory not_empty : IoError

pub record Disk : Type 0 where
  pub nodes : List (FilePath × Node)
  pub refuses : FilePath → Bool

unfoldable pub lookup : FilePath → List (FilePath × Node) → Option Node
unfolding path_eq
lookup p [] = none
lookup p ((q, n) ∷ ns) = let rest = lookup p ns in if path_eq q p then some n else rest

-- every node that `gone` picks out is deleted
unfoldable pub sweep : (FilePath → Bool) → List (FilePath × Node) → List (FilePath × Node)
sweep gone [] = []
sweep gone ((q, n) ∷ ns) = let rest = sweep gone ns in if gone q then rest else (q, n) ∷ rest

unfoldable pub put_node : FilePath → Node → Disk → Disk
put_node p n d = record d { nodes = (p, n) ∷ d.nodes }

-- `os.Stat`
unfoldable pub stat : Disk → FilePath → Result IoError Node
unfolding lookup
stat d p =
    if d.refuses p
    then err denied
    else elim (lookup p d.nodes) [ none ↦ err not_exist | some n ↦ ok n ]

-- `os.ReadFile`
unfoldable pub read_node : Node → Result IoError Bytes
read_node (file b) = ok b
read_node dir = err is_directory

unfoldable pub read_file : Disk → FilePath → Result IoError Bytes
unfolding stat read_node
read_file d p = stat d p >>= read_node

-- the node can be replaced by a file
unfoldable pub is_dir_at : Disk → FilePath → Bool
unfolding lookup
is_dir_at d [] = true
is_dir_at d (a ∷ p) = elim (lookup (a ∷ p) d.nodes) [
  | none ↦ false
  | some n ↦ elim n [ file b ↦ false | dir ↦ true ]
]

-- `os.WriteFile`
unfoldable pub write_file : Disk → FilePath → Bytes → Result IoError Disk
unfolding is_dir_at parent put_node
write_file d p b =
    if d.refuses p
    then err denied
    else if is_dir_at d p
    then err is_directory
    else if is_dir_at d (parent p)
    then ok (put_node p (file b) d)
    else err not_exist

-- `os.MkdirAll`: the directories on the way to `p ++ segs`, from `p` on
unfoldable pub mkdir_below : Disk → FilePath → List Bytes → Result IoError Disk
mkdir_below d p [] = ok d
mkdir_below d p (seg ∷ segs) =
    let q = p ++ seg ∷ [] in
    if d.refuses q then err denied else elim (lookup q d.nodes) [
      | none ↦ mkdir_below (put_node q dir d) q segs
      | some n ↦ elim n [ file b ↦ err not_directory | dir ↦ mkdir_below d q segs ]
    ]

unfoldable pub mkdir_all : Disk → FilePath → Result IoError Disk
unfolding mkdir_below
mkdir_all d p = mkdir_below d [] p

-- a node lies strictly below `p`
unfoldable pub has_child : FilePath → List (FilePath × Node) → Bool
unfolding is_above path_eq
has_child p [] = false
has_child p ((q, n) ∷ ns) = (is_above p q && not (path_eq q p)) || has_child p ns

-- `os.Remove`
unfoldable pub remove : Disk → FilePath → Result IoError Disk
unfolding stat has_child sweep path_eq
remove d p = do
  _ ← stat d p
  if has_child p d.nodes then err not_empty else ok (record d { nodes = sweep (path_eq p) d.nodes })

-- `os.RemoveAll`; a missing path is no error
unfoldable pub remove_all : Disk → FilePath → Result IoError Disk
unfolding sweep is_above
remove_all d p =
    if d.refuses p then err denied else ok (record d { nodes = sweep (is_above p) d.nodes })

-- `os.Rename` of a file onto a file or a free name
unfoldable pub rename : Disk → FilePath → FilePath → Result IoError Disk
unfolding read_file write_file remove
rename d p q = do b ← read_file d p; e ← write_file d q b; remove e p

-- the entry of a node in the listing of `p`
unfoldable pub child_of : FilePath → FilePath → Option Bytes
unfolding equal
child_of [] (name ∷ []) = some name
child_of [] _ = none
child_of (a ∷ p) [] = none
child_of (a ∷ p) (b ∷ q) = let rest = child_of p q in if equal a b then rest else none

unfoldable pub insert_entry : Bytes × Bool → List (Bytes × Bool) → List (Bytes × Bool)
unfolding less equal
insert_entry e [] = e ∷ []
insert_entry (a, x) ((b, y) ∷ es) =
    let rest = insert_entry (a, x) es in
    if equal a b then (a, x) ∷ es else if less a b then (a, x) ∷ (b, y) ∷ es else (b, y) ∷ rest

abbrev is_dir : Node → Bool
is_dir (file b) = false
is_dir dir = true

unfoldable pub entries_below : FilePath → List (FilePath × Node) → List (Bytes × Bool)
unfolding child_of insert_entry
entries_below p [] = []
entries_below p ((q, n) ∷ ns) =
    let rest = entries_below p ns in
    elim (child_of p q) [ none ↦ rest | some name ↦ insert_entry (name, is_dir n) rest ]

-- `os.ReadDir`: names sorted, each with whether it is a directory
unfoldable pub read_dir : Disk → FilePath → Result IoError (List (Bytes × Bool))
unfolding is_dir_at entries_below
read_dir d p =
    if d.refuses p
    then err denied
    else if is_dir_at d p
    then ok (entries_below p d.nodes)
    else err not_exist
