-- ===== src/Index/Fetch/Laws.antt =====
-- Which entries a fetch finds, and when it fails.
use llmp2p.Common.{
  ℕ, ◌+◌, ◌≤◌, true, List, [], ◌∷◌, Option, none, some, Result, ok, err, ◌≡◌, ◌≢◌, ◌↔◌, refl, arith,
  if◌then◌else◌, inl, inr, length, length-append, All, ◌∙◌, Result-cases,
}
use llmp2p.Common.Bytes.{Bytes, equal}
use llmp2p.Common.Bytes.Laws.{equal_iff}
use llmp2p.Common.Dict.{find, find-insert}
use llmp2p.Index.{Entry, Index, Warning, parse, get, index_url}
use llmp2p.Index.Laws.{IsIndex, parse-IsIndex}
use llmp2p.Index.Fetch.{
  Response, bad_url, unreachable, unreadable, answered, FetchError, FetchResult, add_missing, merge,
  answer, ask, absorb, fetch_loop, fetch, limit_reader, max_index_bytes,
}

abbrev pub or_else : Option Entry → Option Entry → Option Entry
or_else (some e) o = some e
or_else none o = o

or_else-none : (o : Option Entry) → or_else o none ≡ o
or_else-none none = refl
or_else-none (some e) = refl

or_else_assoc : (a b c : Option Entry) → or_else (or_else a b) c ≡ or_else a (or_else b c)
or_else_assoc none b c = refl
or_else_assoc (some e) b c = refl

get-add_missing :
    (model : Bytes) (e : Entry) (acc : Index) (k : Bytes)
    → get (add_missing model e acc) k ≡ or_else (get acc k) (if equal model k then some e else none)
unfolding add_missing get
get-add_missing model e acc k =
    ground (arith, find-insert k model e acc, equal_iff model k, or_else-none (find k acc))

get-cons :
    (model : Bytes) (e : Entry) (es : Index) (k : Bytes)
    → get ((model, e) ∷ es) k ≡ or_else (if equal model k then some e else none) (get es k)
unfolding get find
get-cons model e es k = ground arith

get-nil : (k : Bytes) → get [] k ≡ none
unfolding get find
get-nil k = refl

get-merge : (es acc : Index) (k : Bytes) → get (merge es acc) k ≡ or_else (get acc k) (get es k)
unfolding merge
get-merge [] acc k = rw (get-nil k, or_else-none (get acc k))
get-merge ((model, e) ∷ es) acc k =
    rw
      (
        get-merge es (add_missing model e acc) k,
        get-add_missing model e acc k,
        get-cons model e es k,
      )
      (or_else_assoc (get acc k) _ (get es k))

module _ (web : Bytes → Response) (decode : Bytes → Option Index) where
  -- the entry of the first origin, in order, that answers with an index that has one
  abbrev pub first_origin : Bytes → List Bytes → Option Entry
  first_origin k [] = none
  first_origin k (base ∷ bases) =
      let rest = first_origin k bases in
      elim (ask web decode base) [ err e ↦ rest | ok p ↦ or_else (get p.0 k) rest ]

  abbrev found : Bytes → Result FetchError (Index × List Warning) → Option Entry
  found k (err e) = none
  found k (ok p) = get p.0 k

  get-absorb :
      (res : FetchResult) (r : Result FetchError (Index × List Warning)) (k : Bytes)
      → get (absorb web decode res r).index k ≡ or_else (get res.index k) (found k r)
  unfolding absorb
  get-absorb res (err e) k = rw (or_else-none (get res.index k))
  get-absorb res (ok p) k = get-merge p.0 res.index k

  first_origin-cons :
      (k base : Bytes) (bases : List Bytes)
      → first_origin k (base ∷ bases)
        ≡ or_else (found k (ask web decode base)) (first_origin k bases)
  first_origin-cons k base bases = ground arith

  get-fetch_loop :
      (bases : List Bytes) (res : FetchResult) (k : Bytes)
      → get (fetch_loop web decode bases res).index k
        ≡ or_else (get res.index k) (first_origin k bases)
  unfolding fetch_loop
  get-fetch_loop [] res k = rw (or_else-none (get res.index k))
  get-fetch_loop (base ∷ bases) res k =
      get-fetch_loop bases (absorb web decode res (ask web decode base)) k
      ∙ rw (get-absorb res (ask web decode base) k, first_origin-cons k base bases)
          (or_else_assoc (get res.index k) _ (first_origin k bases))

  -- A model's entry is that of the first origin that has one: later origins and failing origins
  -- change nothing.
  pub get-fetch :
      (bases : List Bytes) (k : Bytes)
      → get (fetch web decode bases).0.index k ≡ first_origin k bases
  unfolding fetch
  get-fetch bases k =
      get-fetch_loop bases (record { index = []; warnings = []; errors = [] }) k ∙ rw (get-nil k)

  abbrev failed : Result FetchError (Index × List Warning) → ℕ
  failed (err e) = 1
  failed (ok p) = 0

  abbrev failures : List Bytes → ℕ
  failures [] = 0
  failures (base ∷ bases) = failed (ask web decode base) + failures bases

  errors-absorb :
      (res : FetchResult) (r : Result FetchError (Index × List Warning))
      → length (absorb web decode res r).errors ≡ length res.errors + failed r
  unfolding absorb
  errors-absorb res (err e) = length-append res.errors (e ∷ [])
  errors-absorb res (ok p) = omega arith

  errors-fetch_loop :
      (bases : List Bytes) (res : FetchResult)
      → length (fetch_loop web decode bases res).errors ≡ length res.errors + failures bases
  unfolding fetch_loop
  errors-fetch_loop [] res = omega arith
  errors-fetch_loop (base ∷ bases) res = omega (
    arith,
    errors-fetch_loop bases (absorb web decode res (ask web decode base)),
    errors-absorb res (ask web decode base),
  )

  abbrev pub Fails : Bytes → Type 0
  Fails base = (e : FetchError) × (ask web decode base ≡ err e)

  failed_le : (r : Result FetchError (Index × List Warning)) → failed r ≤ 1
  failed_le (err e) = omega arith
  failed_le (ok p) = omega arith

  failures-le-length : (bases : List Bytes) → failures bases ≤ length bases
  failures-le-length [] = omega arith
  failures-le-length (base ∷ bases) =
      omega (arith, failures-le-length bases, failed_le (ask web decode base))

  failed-Fails :
      (r : Result FetchError (Index × List Warning)) → failed r ≡ 1 → (e : FetchError) × (r ≡ err e)
  failed-Fails (err e) h = (e, refl)
  failed-Fails (ok p) h = absurd (omega arith)

  failures-All : (bases : List Bytes) → failures bases ≡ length bases → All Fails bases
  failures-All [] h = tt
  failures-All (base ∷ bases) h =
      let le = failures-le-length bases in
      let one = failed_le (ask web decode base) in
      (failed-Fails (ask web decode base) (omega arith), failures-All bases (omega arith))

  All-failures : (bases : List Bytes) → All Fails bases → failures bases ≡ length bases
  All-failures [] h = refl
  All-failures (base ∷ bases) h = ground (arith, All-failures bases h.1, h.0.1)

  length_pos : (bases : List Bytes) → (length bases ≢ 0) ↔ (bases ≢ [])
  length_pos [] = ground arith
  length_pos (base ∷ bases) = ground arith

  -- The fetch fails exactly if there are origins and none of them gave an index.
  pub fetch-Fails_iff :
      (bases : List Bytes) → ((fetch web decode bases).1 ≡ true) ↔ ((bases ≢ []) × All Fails bases)
  unfolding fetch
  fetch-Fails_iff bases = ground (
    arith,
    errors-fetch_loop bases (record { index = []; warnings = []; errors = [] }),
    failures-All bases,
    All-failures bases,
    length_pos bases,
  )

  merge-IsIndex : (es acc : Index) → IsIndex es → IsIndex acc → IsIndex (merge es acc)
  merge-IsIndex es acc i j model e g = ground (arith, get-merge es acc model, i model e, j model e)

  answer-parse :
      (url : Bytes) (r : Response) {ix : Index} {ws : List Warning}
      → answer web decode url r ≡ ok (ix, ws)
      → (b : Bytes) × (parse decode b ≡ some (ix, ws))
  unfolding answer
  answer-parse url bad_url h = cc
  answer-parse url unreachable h = cc
  answer-parse url unreadable h = cc
  answer-parse url (answered status body) h = (limit_reader max_index_bytes body, ground arith)

  ask-IsIndex :
      (base : Bytes) {ix : Index} {ws : List Warning}
      → ask web decode base ≡ ok (ix, ws)
      → IsIndex ix
  unfolding ask
  ask-IsIndex base h =
      let (b, q) = answer-parse (index_url base) (web (index_url base)) h in
      parse-IsIndex decode b q

  absorb-IsIndex :
      (base : Bytes) (res : FetchResult)
      → IsIndex res.index
      → IsIndex (absorb web decode res (ask web decode base)).index
  unfolding absorb
  absorb-IsIndex base res i = elim (Result-cases (ask web decode base)) [
    | inl ((ix, ws), e) ↦ rw (e, absorb) (merge-IsIndex ix res.index (ask-IsIndex base e) i)
    | inr (x, e) ↦ rw (e, absorb) i
  ]

  fetch_loop-IsIndex :
      (bases : List Bytes) (res : FetchResult)
      → IsIndex res.index
      → IsIndex (fetch_loop web decode bases res).index
  unfolding fetch_loop
  fetch_loop-IsIndex [] res i = i
  fetch_loop-IsIndex (base ∷ bases) res i =
      fetch_loop-IsIndex bases (absorb web decode res (ask web decode base))
        (absorb-IsIndex base res i)

  -- A fetched index is well-formed.
  pub fetch-IsIndex : (bases : List Bytes) → IsIndex (fetch web decode bases).0.index
  unfolding fetch
  fetch-IsIndex bases =
      fetch_loop-IsIndex bases (record { index = []; warnings = []; errors = [] })
        (λ model e g. ground (arith, get-nil model))
