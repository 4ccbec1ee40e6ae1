-- ===== src/Hf/Listing/Laws.antt =====
-- The order of a listing.
use llmp2p.Common.{
  true, false, List, [], ◌∷◌, map, Option, ok, ◌≡◌, ◌≢◌, refl, sym, arith, All, inl, inr,
  Bool-cases, >>=-eq-ok, ok-injective,
}
use llmp2p.Common.Bytes.{Bytes, less}
use llmp2p.Common.Bytes.Laws.{less_trans}
use llmp2p.Manifest.Content.{IsSorted, HasDistinctPaths}
use llmp2p.Hf.{FileInfo}
use llmp2p.Hf.Listing.{TreeReply, insert_file, sort_files, list_tree, list_pages}
use llmp2p.Pull.Http.{entry_of}

-- Of two different texts one is less.
pub less_total : (a b : Bytes) → less a b ≡ false → a ≢ b → less b a ≡ true
unfolding less
less_total [] [] h n = absurd (n refl)
less_total [] (d ∷ b) h n = absurd (ground arith)
less_total (c ∷ a) [] h n = refl
less_total (c ∷ a) (d ∷ b) h n = ground (arith, less_total a b)

module _ (p : Bytes) where
  -- every file of the list comes behind the path
  abbrev pub IsBefore : List FileInfo → Type 0
  IsBefore fs = All (λ g. less p g.path ≡ true) (map entry_of fs)

  insert_file-IsBefore :
      (f : FileInfo) (fs : List FileInfo)
      → less p f.path ≡ true
      → IsBefore fs
      → IsBefore (insert_file f fs)
  unfolding insert_file entry_of
  insert_file-IsBefore f [] h a = (h, tt)
  insert_file-IsBefore f (g ∷ gs) h a = elim (Bool-cases (less g.path f.path)) [
    | inl e ↦ rw e (a.0, insert_file-IsBefore f gs h a.1)
    | inr e ↦ rw e (h, a)
  ]

-- the path is none of the list's
abbrev IsNew : Bytes → List FileInfo → Type 0
IsNew p fs = All (λ g. p ≢ g.path) (map entry_of fs)

IsBefore-trans :
    (p q : Bytes) (fs : List FileInfo) → less p q ≡ true → IsBefore q fs → IsBefore p fs
unfolding entry_of
IsBefore-trans p q [] h a = tt
IsBefore-trans p q (g ∷ gs) h a = (less_trans p q g.path h a.0, IsBefore-trans p q gs h a.1)

insert_file-IsSorted :
    (f : FileInfo) (fs : List FileInfo)
    → IsNew f.path fs
    → IsSorted (map entry_of fs)
    → IsSorted (map entry_of (insert_file f fs))
unfolding insert_file entry_of
insert_file-IsSorted f [] n s = (tt, tt)
insert_file-IsSorted f (g ∷ gs) n s = elim (Bool-cases (less g.path f.path)) [
  | inl e ↦ rw e (insert_file-IsBefore g.path f gs e s.0, insert_file-IsSorted f gs n.1 s.1)
  | inr e ↦
      let first = less_total g.path f.path e (λ q. n.0 (sym q)) in
      rw e ((first, IsBefore-trans f.path g.path gs first s.0), s)
]

insert_file-IsNew :
    (p : Bytes) (f : FileInfo) (fs : List FileInfo)
    → p ≢ f.path
    → IsNew p fs
    → IsNew p (insert_file f fs)
unfolding insert_file entry_of
insert_file-IsNew p f [] h a = (h, tt)
insert_file-IsNew p f (g ∷ gs) h a = elim (Bool-cases (less g.path f.path)) [
  | inl e ↦ rw e (a.0, insert_file-IsNew p f gs h a.1)
  | inr e ↦ rw e (h, a)
]

sort_files-IsNew : (p : Bytes) (fs : List FileInfo) → IsNew p fs → IsNew p (sort_files fs)
unfolding sort_files entry_of
sort_files-IsNew p [] a = tt
sort_files-IsNew p (f ∷ fs) a =
    insert_file-IsNew p f (sort_files fs) a.0 (sort_files-IsNew p fs a.1)

sort_files-IsSorted :
    (fs : List FileInfo)
    → HasDistinctPaths (map entry_of fs)
    → IsSorted (map entry_of (sort_files fs))
unfolding sort_files entry_of
sort_files-IsSorted [] d = tt
sort_files-IsSorted (f ∷ fs) d =
    insert_file-IsSorted f (sort_files fs) (sort_files-IsNew f.path fs d.0)
      (sort_files-IsSorted fs d.1)

-- The files that the Hub lists on all pages, if no path is listed twice, come in the strict order of
-- their paths that a manifest wants.
pub list_tree-IsSorted :
    (resolve_url : Bytes → Bytes → Option Bytes) (hubs : List (Bytes → TreeReply))
    (base repo_id sha : Bytes) {fs : List FileInfo}
    → list_tree resolve_url hubs base repo_id sha ≡ ok fs
    → (seen : List FileInfo) × (fs ≡ sort_files seen)
      × (HasDistinctPaths (map entry_of seen) → IsSorted (map entry_of fs))
unfolding list_tree
list_tree-IsSorted resolve_url hubs base repo_id sha {fs} h =
    let (seen, e, q) =
      >>=-eq-ok (list_pages resolve_url hubs _ []) (λ files. ok (sort_files files)) h in
    let same : fs ≡ sort_files seen = sym (ok-injective q) in
    (seen, same, λ d. rw same (sort_files-IsSorted seen d))
