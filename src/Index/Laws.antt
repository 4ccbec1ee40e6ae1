-- ===== src/Index/Laws.antt =====
-- What the operations of an index do to its entries.
use llmp2p.Common.{
  true, false, List, [], ◌∷◌, Option, none, some, ok, err, ◌≡◌, ◌≢◌, refl, arith, if◌then◌else◌,
  subst, sym, ap, ◌∙◌,
}
use llmp2p.Common.Bytes.{Bytes, equal}
use llmp2p.Common.Bytes.Laws.{equal_iff}
use llmp2p.Common.Dict.{find, find-delete, find-insert}
use llmp2p.Index.{
  Entry, Index, conflicting, validate, get, remove, add, check_entry, keep_valid, parse, Warning,
}

-- Every entry that can be got is valid and stands under its own model id.
abbrev pub IsIndex : Index → Type 0
IsIndex ix =
    (model : Bytes) (e : Entry) → get ix model ≡ some e → (validate e ≡ none) × (e.model ≡ model)

-- `Remove` reports whether there was an entry, and afterwards exactly that entry is missing.
pub get-remove :
    (ix : Index) (model k : Bytes)
    → (get (remove ix model).0 k ≡ (if equal model k then none else get ix k))
      × ((remove ix model).1 ≡ false → get ix model ≡ none)
      × ((remove ix model).1 ≡ true → get ix model ≢ none)
unfolding remove get
get-remove ix model k =
    (ground (arith, find-delete k model ix, equal_iff model k), ground arith, ground arith)

-- After a successful `Add` the model has the new entry, and every other model has what it had.
pub get-add :
    (ix ix' : Index) (e : Entry) (k : Bytes)
    → add ix e ≡ ok ix'
    → get ix' k ≡ (if equal e.model k then some e else get ix k)
unfolding add get
get-add ix ix' e k h = ground (arith, find-insert k e.model e ix)

add-validate : (ix ix' : Index) (e : Entry) → add ix e ≡ ok ix' → validate e ≡ none
unfolding add
add-validate ix ix' e h = ground arith

-- `Add` keeps an index well-formed.
pub add-IsIndex : (ix ix' : Index) (e : Entry) → IsIndex ix → add ix e ≡ ok ix' → IsIndex ix'
add-IsIndex ix ix' e i h model x g =
    ground
      (arith, get-add ix ix' e model h, add-validate ix ix' e h, equal_iff e.model model, i model x)

-- `Add` refuses a valid entry, with the conflict as the error, if an entry with another manifest
-- is listed for its model.
pub add-conflicting :
    (ix : Index) (e old : Entry)
    → validate e ≡ none
    → get ix e.model ≡ some old
    → old.manifest_sha256 ≢ e.manifest_sha256
    → add ix e ≡ err (conflicting e.model)
unfolding add get
add-conflicting ix e old v g n = ground (arith, equal_iff old.manifest_sha256 e.manifest_sha256)

check_entry-eq-none :
    (model : Bytes) (e : Entry)
    → check_entry model e ≡ none
    → (validate e ≡ none) × (e.model ≡ model)
unfolding check_entry
check_entry-eq-none model e h = ground (arith, equal_iff model e.model)

keep_valid-IsIndex : (es : Index) → IsIndex (keep_valid es)
unfolding get keep_valid find
keep_valid-IsIndex [] model e h = cc
keep_valid-IsIndex ((k, x) ∷ es) model e h =
    ground (arith, keep_valid-IsIndex es model e, check_entry-eq-none k x, equal_iff k model)

parse-eq-some :
    (decode : Bytes → Option Index) (b : Bytes) {ix : Index} {ws : List Warning}
    → parse decode b ≡ some (ix, ws)
    → (es : Index) × (decode b ≡ some es) × (keep_valid es ≡ ix)
parse-eq-some decode b {ix} {ws} h = go (decode b) refl
  where
    go :
        (r : Option Index)
        → decode b ≡ r
        → (es : Index) × (decode b ≡ some es) × (keep_valid es ≡ ix)
    go none e = absurd (unfold parse in ground arith)
    go (some es) e = (es, e, unfold parse in ground arith)

-- A document that decodes is parsed to a well-formed index, whatever entries it has.
pub parse-IsIndex :
    (decode : Bytes → Option Index) (b : Bytes) {ix : Index} {ws : List Warning}
    → parse decode b ≡ some (ix, ws)
    → IsIndex ix
parse-IsIndex decode b h =
    let (es, _, e) = parse-eq-some decode b h in subst IsIndex e (keep_valid-IsIndex es)

get-keep_valid :
    (es : Index) (model : Bytes) (e : Entry)
    → get es model ≡ some e
    → check_entry model e ≡ none
    → get (keep_valid es) model ≡ some e
unfolding get keep_valid find
get-keep_valid [] model e g c = cc
get-keep_valid ((k, x) ∷ es) model e g c =
    ground (arith, get-keep_valid es model e, equal_iff k model)

-- An entry of the document that is valid and stands under its model id is kept.
pub parse_keeps :
    (decode : Bytes → Option Index) (b : Bytes) {ix es : Index} {ws : List Warning} (model : Bytes)
    (e : Entry)
    → parse decode b ≡ some (ix, ws)
    → decode b ≡ some es
    → get es model ≡ some e
    → validate e ≡ none
    → e.model ≡ model
    → get ix model ≡ some e
parse_keeps decode b {ix} {es} model e h d g v m =
    let (es', d', k) = parse-eq-some decode b h in
    let same : es' ≡ es = ground arith in
    subst (λ x. get x model ≡ some e) (ap keep_valid (sym same) ∙ k)
      (get-keep_valid es model e g (unfold check_entry in ground (arith, equal_iff model e.model)))
