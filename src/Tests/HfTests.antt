-- ===== src/Tests/HfTests.antt =====
-- Downloads: a refused range, and a partial file that is longer than the body.
use llmp2p.Common.{
  ℕ, Bool, true, false, List, [], ◌∷◌, ◌++◌, drop, Option, none, some, Result, ok, err, ◌≡◌, ◌≢◌,
  refl, arith,
}
use llmp2p.Common.Bytes.{Bytes, codes}
use llmp2p.Common.Bytes.Hex.{hex_encode}
use llmp2p.Common.Disk.{FilePath, Disk, Node, file, stat, read_file, not_exist}
use llmp2p.Hf.Download.{Request, Reply, reply, part_path, request_of, download_file}
use llmp2p.Hf.Download.Laws.{download_file_fresh, download_file_stale}
use llmp2p.Tests.Samples.{zeros64, sample_disk, zero_sum}

abbrev dst : FilePath
dst = codes "data" ∷ codes "x" ∷ []

abbrev whole : Request → Reply
whole r = reply 200 (codes "new") false

abbrev hubs : List (Request → Reply)
hubs = (λ r. reply 416 [] false) ∷ whole ∷ []

abbrev with_part : Disk
with_part = record sample_disk {
  nodes = (codes "data" ∷ codes "x.llmp2p.part" ∷ [], file (codes "older!")) ∷ sample_disk.nodes;
}

dst_named : dst ≢ []
dst_named h = absurd (ground arith)

wanted : zeros64 ≢ []
wanted h = absurd (ground arith)

no_part : stat sample_disk (part_path dst) ≡ err not_exist
unfolding stat part_path
no_part = refl

abbrev fresh_disk : Disk
fresh_disk = (download_file zero_sum hubs [] dst zeros64 sample_disk).0

fresh_works : download_file zero_sum hubs [] dst zeros64 sample_disk ≡ (fresh_disk, ok 3)
unfolding download_file llmp2p.Hf.Download.resume_state stat part_path
    llmp2p.Hf.Download.create_part llmp2p.Common.Disk.write_file llmp2p.Hf.Download.is_refused
    llmp2p.Common.Disk.remove llmp2p.Hf.Download.receive llmp2p.Hf.Download.copy_body
    llmp2p.Hf.Download.finish llmp2p.Common.Bytes.is_empty hex_encode llmp2p.Common.Disk.rename
fresh_works = refl

abbrev stale_disk : Disk
stale_disk = (download_file zero_sum (whole ∷ []) [] dst zeros64 with_part).0

stale_works : download_file zero_sum (whole ∷ []) [] dst zeros64 with_part ≡ (stale_disk, ok 3)
unfolding download_file llmp2p.Hf.Download.resume_state stat part_path read_file
    llmp2p.Hf.Download.is_refused llmp2p.Hf.Download.receive llmp2p.Hf.Download.copy_body
    llmp2p.Common.Disk.write_file llmp2p.Hf.Download.finish llmp2p.Common.Bytes.is_empty hex_encode
    llmp2p.Common.Disk.rename
stale_works = refl

part_works : read_file with_part (part_path dst) ≡ ok (codes "older!")
unfolding read_file part_path
part_works = refl

download_file_fresh_example :
    (b : Bytes) × (read_file fresh_disk dst ≡ ok b) × (hex_encode (zero_sum b) ≡ zeros64)
download_file_fresh_example =
    download_file_fresh zero_sum dst dst_named zeros64 wanted hubs [] sample_disk fresh_disk 3
      no_part fresh_works

download_file_stale_example :
    (read_file stale_disk dst ≡ ok (codes "newer!"))
    × (hex_encode (zero_sum (codes "new")) ≡ zeros64)
download_file_stale_example =
    download_file_stale zero_sum dst dst_named zeros64 wanted whole [] [] with_part stale_disk 3
      (codes "older!") (codes "new") part_works refl stale_works
