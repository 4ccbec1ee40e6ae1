-- ===== src/Index/Listing.antt =====
-- What an index promises, whatever represents it: a table from the model ids to their entries.
use llmp2p.Common.{
  Bool, true, false, List, [], ◌∷◌, Option, none, some, Result, ok, err, ◌≡◌, refl, arith,
  if◌then◌else◌, ap, ◌∙◌,
}
use llmp2p.Common.Bytes.{Bytes, equal}
use llmp2p.Common.Bytes.Laws.{equal_iff}
use llmp2p.Common.Dict.{find-delete, find-insert}
use llmp2p.Index.{Entry, Index, AddError, invalid, conflicting, validate, get, remove, add}

abbrev pub Listing : Type 0
Listing = Bytes → Option Entry

-- the table that an index stands for
abbrev pub listing : Index → Listing
listing ix = λ model. get ix model

-- a request to the index, and what it returns besides the next index
pub data Op : Type 0 where
  put : Entry → Op
  drop_model : Bytes → Op

pub data Reply : Type 0 where
  done : Reply
  refused : AddError → Reply
  dropped : Bool → Reply

abbrev pub assign : Bytes → Option Entry → Listing → Listing
assign model o l = λ k. if equal model k then o else l k

-- a listed entry that forbids the new one
abbrev pub conflicts : Option Entry → Entry → Bool
conflicts none e = false
conflicts (some old) e = if equal old.manifest_sha256 e.manifest_sha256 then false else true

abbrev is_listed : Option Entry → Bool
is_listed none = false
is_listed (some e) = true

-- what `Add` and `Remove` promise of the table
abbrev pub promised : Op → Listing → Listing × Reply
promised (put e) l = elim (validate e) [
  | some x ↦ (l, refused (invalid x))
  | none ↦
      if conflicts (l e.model) e
      then (l, refused (conflicting e.model))
      else (assign e.model (some e) l, done)
]
promised (drop_model model) l = (assign model none l, dropped (is_listed (l model)))

-- what they do to the index; where `Add` fails, the index stays
abbrev kept : Index → Result AddError Index → Index × Reply
kept ix (ok ix') = (ix', done)
kept ix (err x) = (ix, refused x)

abbrev pub perform : Op → Index → Index × Reply
perform (put e) ix = kept ix (add ix e)
perform (drop_model model) ix = ((remove ix model).0, dropped (remove ix model).1)

abbrev pub perform_all : List Op → Index → Index × List Reply
perform_all [] ix = (ix, [])
perform_all (o ∷ os) ix = let r = perform_all os (perform o ix).0 in (r.0, (perform o ix).1 ∷ r.1)

abbrev pub promised_all : List Op → Listing → Listing × List Reply
promised_all [] l = (l, [])
promised_all (o ∷ os) l = let r = promised_all os (promised o l).0 in (r.0, (promised o l).1 ∷ r.1)

-- The table after an operation.
perform_at :
    (o : Op) (ix : Index) (k : Bytes) → get (perform o ix).0 k ≡ (promised o (listing ix)).0 k
unfolding add remove get
perform_at (put e) ix k = ground (arith, find-insert k e.model e ix)
perform_at (drop_model model) ix k = ground (arith, find-delete k model ix, equal_iff model k)

perform_reply : (o : Op) (ix : Index) → (perform o ix).1 ≡ (promised o (listing ix)).1
unfolding add remove get
perform_reply (put e) ix = ground arith
perform_reply (drop_model model) ix = ground arith

perform_table : (o : Op) (ix : Index) → listing (perform o ix).0 ≡ (promised o (listing ix)).0
perform_table o ix = λ i k. perform_at o ix k i

-- Every sequence of `Add` and `Remove` leaves an index that stands for the table that the sequence is
-- promised to leave, and returns the errors and the reports that it is promised to return.
pub perform_all-promised_all :
    (os : List Op) (ix : Index)
    → (listing (perform_all os ix).0 ≡ (promised_all os (listing ix)).0)
      × ((perform_all os ix).1 ≡ (promised_all os (listing ix)).1)
perform_all-promised_all [] ix = (refl, refl)
perform_all-promised_all (o ∷ os) ix =
    let (a, b) = perform_all-promised_all os (perform o ix).0 in
    let t = perform_table o ix in
    (
      a ∙ ap (λ l. (promised_all os l).0) t,
      λ i. perform_reply o ix i ∷ (b ∙ ap (λ l. (promised_all os l).1) t) i,
    )
