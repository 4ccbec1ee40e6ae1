-- ===== src/Tests/EngineTests.antt =====
-- The torrent client, the wait for a swarm, the pages of the Hub and the table of an index.
use llmp2p.Common.{
  ℕ, Bool, true, false, List, [], ◌∷◌, ◌++◌, replicate, length, Option, none, some, Result, ok, err,
  ◌≡◌, ◌≢◌, refl, arith, All, ◌+◌, ◌≤◌, ◌<◌, map,
}
use llmp2p.Common.Int.{pos, negsuc}
use llmp2p.Common.Bytes.{Bytes, codes, to_lower}
use llmp2p.Engine.{Progress, pull, hash_from_hex}
use llmp2p.Pull.Swarm.{Event, tick, done, gave_up, watch, grace_of}
use llmp2p.Pull.Swarm.Laws.{IsStalled, watch-IsStalled, watch_gives_up}
use llmp2p.Hf.{FileInfo, TreeEntry}
use llmp2p.Hf.Listing.{TreeReply, page, list_tree, link_next, sort_files}
use llmp2p.Index.Listing.{
  Op, put, drop_model, listing, perform_all, promised_all, perform_all-promised_all,
}
use llmp2p.Index.{Entry}
use llmp2p.Tests.Samples.{sample_entry}

abbrev half : Progress
half = record { completed = pos 1; total = pos 2; peers = 1; complete = false }

abbrev full : Progress
full = record { completed = pos 2; total = pos 2; peers = 3; complete = true }

pull_works : (pull (half ∷ half ∷ full ∷ half ∷ [])).1 ≡ none
unfolding pull llmp2p.Engine.pull_loop
pull_works = refl

abbrev twenty : Bytes
twenty = replicate 20 171

abbrev upper_hash : Bytes
upper_hash = codes "ABABABABABABABABABABABABABABABABABABABAB"

hash_works : hash_from_hex upper_hash ≡ ok twenty
unfolding hash_from_hex llmp2p.Common.Bytes.Hex.hex_decode
hash_works = refl

-- five bytes arrive at the time 4, and nothing more
abbrev events : List Event
events = tick 4 (pos 5) ∷ tick 9 (pos 5) ∷ tick 15 (pos 5) ∷ done none ∷ []

watch_works : watch 10 0 (pos 0) events ≡ gave_up
unfolding watch
watch_works = refl

watch-IsStalled_example : IsStalled 10 0 (pos 0) events
watch-IsStalled_example = watch-IsStalled 10 0 (pos 0) events watch_works

grace_works : grace_of (negsuc 4) ≡ 90000000000
unfolding grace_of
grace_works = refl

watch_gives_up_example :
    watch 10 0 (pos 0) ((tick 3 (pos 0) ∷ tick 10 (pos 0) ∷ []) ++ tick 11 (pos 0) ∷ done none ∷ [])
    ≡ gave_up
watch_gives_up_example =
    watch_gives_up 10 0 11 (pos 0) (tick 3 (pos 0) ∷ tick 10 (pos 0) ∷ []) (done none ∷ [])
      ((3, refl, ground arith), ((10, refl, ground arith), tt)) (ground arith)

link_works :
    link_next (codes "<https://h/a?b>; rel=\"prev\" , <https://h/c>; rel=\"next\"")
    ≡ codes "https://h/c"
unfolding link_next llmp2p.Hf.Listing.link_parts llmp2p.Hf.Listing.split_link_header
    llmp2p.Common.Bytes.split llmp2p.Hf.Listing.next_of llmp2p.Common.Bytes.cut
    llmp2p.Common.Bytes.equal llmp2p.Hf.Listing.trim_space llmp2p.Common.Bytes.trim_by
    llmp2p.Common.Bytes.is_space llmp2p.Hf.Listing.is_angle
link_works = refl

abbrev entry_at : Bytes → TreeEntry
entry_at p = record { kind = codes "file"; path = p; size = pos 1; lfs = none }

abbrev file_at : Bytes → FileInfo
file_at p = record { path = p; size = pos 1; lfs_oid = [] }

-- two pages, of which the second comes first in the order of the paths
abbrev pages : List (Bytes → TreeReply)
pages =
    (λ url. page 200 (some (entry_at (codes "b") ∷ [])) (codes "<p2>; rel=\"next\""))
    ∷ (λ url. page 200 (some (entry_at (codes "a") ∷ [])) [])
    ∷ []

abbrev absolute : Bytes → Bytes → Option Bytes
absolute base url = some url

listing_works :
    list_tree absolute pages [] (codes "org/repo") (codes "main")
    ≡ ok (file_at (codes "a") ∷ file_at (codes "b") ∷ [])
unfolding list_tree llmp2p.Hf.Listing.list_pages llmp2p.Hf.decode_response
    llmp2p.Hf.Listing.next_page llmp2p.Common.Bytes.is_empty link_next llmp2p.Hf.Listing.link_parts
    llmp2p.Hf.Listing.split_link_header llmp2p.Common.Bytes.split llmp2p.Hf.Listing.next_of
    llmp2p.Common.Bytes.cut llmp2p.Common.Bytes.equal llmp2p.Hf.Listing.trim_space
    llmp2p.Common.Bytes.trim_by llmp2p.Common.Bytes.is_space llmp2p.Hf.Listing.is_angle sort_files
    llmp2p.Hf.page_files llmp2p.Hf.Listing.insert_file llmp2p.Common.Bytes.less llmp2p.Hf.oid_of
listing_works = refl

abbrev other : Entry
other = record sample_entry { manifest_sha256 = replicate 64 b'1' }

abbrev requests : List Op
requests = put sample_entry ∷ put other ∷ drop_model (codes "org/repo") ∷ put other ∷ []

perform_all-promised_all_example :
    (listing (perform_all requests []).0 ≡ (promised_all requests (listing [])).0)
    × ((perform_all requests []).1 ≡ (promised_all requests (listing [])).1)
perform_all-promised_all_example = perform_all-promised_all requests []
