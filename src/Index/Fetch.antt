-- ===== src/Index/Fetch.antt =====
-- `Fetch`: index documents from several origins, merged.
-- The network is the parameter `web`, from a URL to what a GET request for it gave.
pub mod Laws
use llmp2p.Common.{
  ℕ, Bool, true, false, not, ◌&&◌, List, [], ◌∷◌, ◌++◌, Option, none, some, Result, ok, err,
  if◌then◌else◌, ◌==◌, take, length,
}
use llmp2p.Common.Bytes.{Bytes, equal}
use llmp2p.Common.Dict.{find, insert}
use llmp2p.Index.{Entry, Index, Warning, conflict, parse, index_url}

pub data Response : Type 0 where
  bad_url unreachable unreadable : Response
  answered : ℕ → Bytes → Response

pub data FetchError : Type 0 where
  no_request no_response no_body bad_status bad_document : Bytes → FetchError

pub record FetchResult : Type 0 where
  pub index : Index
  pub warnings : List Warning
  pub errors : List FetchError

-- `io.LimitReader(resp.Body, 16<<20)`
abbrev pub max_index_bytes : ℕ
max_index_bytes = 16777216

unfoldable pub limit_reader : ℕ → Bytes → Bytes
limit_reader n b = take n b

-- the inner loop: an entry that is already there stays
unfoldable pub add_missing : Bytes → Entry → Index → Index
add_missing model e acc = elim (find model acc) [ none ↦ insert model e acc | some existing ↦ acc ]

unfoldable pub merge : Index → Index → Index
merge [] acc = acc
merge ((model, e) ∷ es) acc = merge es (add_missing model e acc)

unfoldable pub conflict_of : Bytes → Entry → Option Entry → List Warning
unfolding equal
conflict_of model e none = []
conflict_of model e (some existing) =
    if not (equal existing.manifest_sha256 e.manifest_sha256) then conflict model ∷ [] else []

-- the warnings of that loop
unfoldable pub merge_warnings : Index → Index → List Warning
unfolding conflict_of
merge_warnings [] acc = []
merge_warnings ((model, e) ∷ es) acc =
    conflict_of model e (find model acc) ++ merge_warnings es (add_missing model e acc)

module _ (web : Bytes → Response) (decode : Bytes → Option Index) where
  -- what the loop does up to the parsed document of one origin
  unfoldable pub answer : Bytes → Response → Result FetchError (Index × List Warning)
  answer url bad_url = err (no_request url)
  answer url unreachable = err (no_response url)
  answer url unreadable = err (no_body url)
  answer url (answered status body) =
      if not (status == 200)
      then err (bad_status url)
      else elim (parse decode (limit_reader max_index_bytes body)) [
        | none ↦ err (bad_document url)
        | some p ↦ ok p
      ]

  unfoldable pub ask : Bytes → Result FetchError (Index × List Warning)
  ask base = answer (index_url base) (web (index_url base))

  unfoldable pub absorb : FetchResult → Result FetchError (Index × List Warning) → FetchResult
  absorb res (err e) = record res { errors = res.errors ++ e ∷ [] }
  absorb res (ok (ix, ws)) = record res {
    index = merge ix res.index;
    warnings = (res.warnings ++ ws) ++ merge_warnings ix res.index;
  }

  unfoldable pub fetch_loop : List Bytes → FetchResult → FetchResult
  fetch_loop [] res = res
  fetch_loop (base ∷ bases) res = fetch_loop bases (absorb res (ask base))

  -- `Fetch`: the result, and whether the error "all bootstrap origins failed" comes with it
  unfoldable pub fetch : List Bytes → FetchResult × Bool
  fetch bases =
      let res = fetch_loop bases (record { index = []; warnings = []; errors = [] }) in
      (res, length res.errors == length bases && not (length bases == 0))
