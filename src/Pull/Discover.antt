-- ===== src/Pull/Discover.antt =====
-- internal/pull/dht.go: `discoverViaDHT`.
-- A node is the function from a trusted key to what it answers for the model. That a socket cannot be
-- opened or that no node is known shows as a list without nodes.
use llmp2p.Common.{not, List, [], ◌∷◌, Option, Result, ok, err, if◌then◌else◌}
use llmp2p.Common.Bytes.{Bytes, equal}
use llmp2p.Common.Bytes.Hex.{hex_encode}
use llmp2p.Index.{Entry}
use llmp2p.Dht.{Record, Answer, Libraries, GetError, not_found, new_client, get_record}
use llmp2p.Pull.{PullError, no_record, bad_key, other_revision}

unfoldable pub entry_of_record : Bytes → Record → Entry
entry_of_record model r = record {
  model = model;
  info_hash = hex_encode r.info_hash;
  manifest_sha256 = hex_encode r.manifest_sha256;
  revision = r.revision;
  size = r.size;
  added_at = 0;
}

-- one round of the loop: the record of a node, if it is of the wanted revision
unfoldable pub accept_record :
    Bytes → Bytes → Result GetError Record → Result PullError (Entry × Bytes)
accept_record model revision (err e) = err (no_record e)
accept_record model revision (ok r) =
    if not (equal r.revision revision)
    then err (other_revision r.revision)
    else ok (entry_of_record model r, r.manifest)

module _ (l : Libraries) (keys : List Bytes) (model revision : Bytes) where
  unfoldable pub discover_loop :
      PullError → List (Bytes → Option Answer) → Result PullError (Entry × Bytes)
  discover_loop last [] = err last
  discover_loop last (node ∷ nodes) =
      elim (accept_record model revision (get_record l node keys model)) [
        | err e ↦ discover_loop e nodes
        | ok p ↦ ok p
      ]

-- `discoverViaDHT`
unfoldable pub discover :
    Libraries
    → List Bytes
    → List (Bytes → Option Answer)
    → Bytes
    → Bytes
    → Result PullError (Entry × Bytes)
discover l allowed nodes model revision = elim (new_client 0 allowed) [
  | err e ↦ err (bad_key e.0 e.1)
  | ok keys ↦ discover_loop l keys model revision (no_record not_found) nodes
]
