-- ===== src/Hf/Download/Laws.antt =====
-- What `DownloadFile` leaves at the destination.
use llmp2p.Common.{
  ℕ, ◌+◌, Bool, true, false, List, [], ◌∷◌, ◌++◌, append-nil, Result, ok, err, ◌≡◌, ◌≢◌, refl, ap,
  arith, ◌==◌, length, drop, length-append, inl, inr, Bool-cases,
}
use llmp2p.Common.Bytes.{Bytes, codes, is_empty}
use llmp2p.Common.Bytes.Laws.{equal_iff}
use llmp2p.Common.Bytes.Hex.{hex_encode}
use llmp2p.Common.Disk.{
  path_eq, FilePath, IoError, not_exist, denied, is_directory, not_directory, not_empty, Disk, stat,
  read_file, write_file, remove,
}
use llmp2p.Common.Disk.Laws.{
  read_file-write_file, read_file-rename, stat-remove, remove-not_exist, stat_of_read_file,
}
use llmp2p.Hf.Download.{
  Request, Reply, no_answer, reply, part_path, Resume, create_part, resume_state, write_at, finish,
  copy_body, receive, is_refused, request_of, download_file,
}

write_at_end : (old new : Bytes) → write_at (length old) new old ≡ old ++ new
unfolding write_at
write_at_end [] [] = refl
write_at_end [] (c ∷ new) = ap (λ t. c ∷ t) (append-nil new)
write_at_end (c ∷ old) new = ap (λ t. c ∷ t) (write_at_end old new)

suffix_apart : (a : Bytes) → a ++ codes ".llmp2p.part" ≢ a
suffix_apart a h =
    let n : length (a ++ codes ".llmp2p.part") ≡ length a = ap length h in
    absurd (ground (arith, length-append a (codes ".llmp2p.part")))

part_path_apart : (p : FilePath) → p ≢ [] → path_eq (part_path p) p ≡ false
unfolding part_path path_eq
part_path_apart [] n = absurd (n refl)
part_path_apart (a ∷ []) n = ground (arith, equal_iff (a ++ codes ".llmp2p.part") a, suffix_apart a)
part_path_apart (a ∷ b ∷ p) n = ground (arith, part_path_apart (b ∷ p))

module _ (sha256_sum : Bytes → Bytes) where
  module _ (dst : FilePath) (n : dst ≢ []) (want : Bytes) (w : want ≢ []) where
    -- the file at the destination, and the bytes whose digest was compared
    abbrev Holds : Disk → Bytes → Bytes → Type 0
    Holds e hashed stored = (read_file e dst ≡ ok stored) × (hex_encode (sha256_sum hashed) ≡ want)

    finish_lem :
        (d e : Disk) (total count : ℕ) (hashed b : Bytes)
        → read_file d (part_path dst) ≡ ok b
        → finish sha256_sum d (part_path dst) dst want total hashed ≡ (e, ok count)
        → Holds e hashed b
    unfolding finish is_empty
    finish_lem d e total count hashed b r h = ground (
      arith,
      equal_iff (hex_encode (sha256_sum hashed)) want,
      read_file-rename d e (part_path dst) dst b (part_path_apart dst n) r,
    )

    copy_body_lem :
        (r : Resume) (e : Disk) (old body : Bytes) (broken : Bool) (count : ℕ)
        → copy_body sha256_sum (part_path dst) dst want r old body broken ≡ (e, ok count)
        → Holds e (r.hashed ++ body) (write_at r.offset body old)
    unfolding copy_body
    copy_body_lem r e old body broken count h =
        go (write_file r.disk (part_path dst) (write_at r.offset body old)) refl broken h
      where
        go :
            (o : Result IoError Disk)
            → write_file r.disk (part_path dst) (write_at r.offset body old) ≡ o
            → (b : Bool)
            → copy_body sha256_sum (part_path dst) dst want r old body b ≡ (e, ok count)
            → Holds e (r.hashed ++ body) (write_at r.offset body old)
        go (err x) q b h = absurd (ground arith)
        go (ok f) q true h = absurd (ground arith)
        go (ok f) q false h =
            finish_lem f e (r.offset + length body) count (r.hashed ++ body)
              (write_at r.offset body old)
              (read_file-write_file r.disk f (part_path dst) (write_at r.offset body old) q)
              (ground arith)

resume_offset :
    (d : Disk) (tmp : FilePath) {r : Resume}
    → resume_state d tmp ≡ ok r
    → r.offset ≡ length r.hashed
unfolding resume_state create_part
resume_offset d tmp h = ground arith

resume_fresh :
    (d : Disk) (tmp : FilePath) {r : Resume}
    → stat d tmp ≡ err not_exist
    → resume_state d tmp ≡ ok r
    → (r.hashed ≡ []) × (r.offset ≡ 0) × (r.disk.refuses tmp ≡ false)
unfolding resume_state create_part write_file stat
resume_fresh d tmp {r} s h = (ground arith, ground arith, ground arith)

resume_existing :
    (d : Disk) (tmp : FilePath) (old : Bytes)
    → read_file d tmp ≡ ok old
    → resume_state d tmp ≡ ok (record { offset = length old; hashed = old; disk = d })
unfolding resume_state
resume_existing d tmp old r = ground (arith, stat_of_read_file d tmp old r)

write_at_start : (new : Bytes) → write_at 0 new [] ≡ new
unfolding write_at
write_at_start [] = refl
write_at_start (c ∷ new) = append-nil (c ∷ new)

module _ (sha256_sum : Bytes → Bytes) (dst : FilePath) (n : dst ≢ []) (want : Bytes)
    (w : want ≢ []) where
  -- The destination holds bytes of the wanted digest.
  abbrev HoldsWanted : Disk → Type 0
  HoldsWanted e = (b : Bytes) × (read_file e dst ≡ ok b) × (hex_encode (sha256_sum b) ≡ want)

  copy_fresh :
      (r : Resume) (e : Disk) (body : Bytes) (broken : Bool) (count : ℕ)
      → r.hashed ≡ []
      → r.offset ≡ 0
      → copy_body sha256_sum (part_path dst) dst want r [] body broken ≡ (e, ok count)
      → HoldsWanted e
  copy_fresh r e body broken count a o h =
      let (i, j) = copy_body_lem sha256_sum dst n want w r e [] body broken count h in
      (body, ground (arith, write_at_start body), ground arith)

  receive_fresh :
      (r : Resume) (e : Disk) (answer : Reply) (count : ℕ)
      → r.hashed ≡ []
      → r.offset ≡ 0
      → receive sha256_sum (part_path dst) dst want r answer ≡ (e, ok count)
      → HoldsWanted e
  unfolding receive
  receive_fresh r e no_answer count a o h = absurd (ground arith)
  receive_fresh r e (reply status body broken) count a o h = elim (Bool-cases (status == 206)) [
    | inl q ↦ copy_fresh r e body broken count a o (ground arith)
    | inr q ↦
        copy_fresh (record r { offset = 0; hashed = [] }) e body broken count refl refl
          (ground arith)
  ]

  -- Where a digest is wanted, a download that starts with no partial file and returns no error
  -- leaves a file of that digest at the destination, whatever the Hub answered, and however
  -- often it refused a range.
  pub download_file_fresh :
      (hubs : List (Request → Reply)) (url : Bytes) (d e : Disk) (count : ℕ)
      → stat d (part_path dst) ≡ err not_exist
      → download_file sha256_sum hubs url dst want d ≡ (e, ok count)
      → (b : Bytes) × (read_file e dst ≡ ok b) × (hex_encode (sha256_sum b) ≡ want)
  unfolding download_file
  download_file_fresh [] url d e count s h = absurd (ground arith)
  download_file_fresh (hub ∷ hubs) url d e count s h =
      go (λ f. download_file_fresh hubs url f e count) (resume_state d (part_path dst)) refl
    where
      Later : Type 0
      Later =
          (f : Disk)
          → stat f (part_path dst) ≡ err not_exist
          → download_file sha256_sum hubs url dst want f ≡ (e, ok count)
          → HoldsWanted e

      again :
          Later
          → (r : Resume) → r.disk.refuses (part_path dst) ≡ false
          → (o : Result IoError Disk) → remove r.disk (part_path dst) ≡ o
          → is_refused sha256_sum (hub (request_of sha256_sum url r.offset)) ≡ true
          → resume_state d (part_path dst) ≡ ok r
          → HoldsWanted e
      again later r g (ok f) q x y =
          later f (stat-remove r.disk f (part_path dst) g q) (ground arith)
      again later r g (err not_exist) q y z =
          later r.disk (remove-not_exist r.disk (part_path dst) q) (ground arith)
      again later r g (err denied) q y z = absurd (ground arith)
      again later r g (err is_directory) q y z = absurd (ground arith)
      again later r g (err not_directory) q y z = absurd (ground arith)
      again later r g (err not_empty) q y z = absurd (ground arith)

      go : Later → (o : Result IoError Resume) → resume_state d (part_path dst) ≡ o → HoldsWanted e
      go later (err x) q = absurd (ground arith)
      go later (ok r) q =
          let (a, o, g) = resume_fresh d (part_path dst) s q in
          elim (Bool-cases (is_refused sha256_sum (hub (request_of sha256_sum url r.offset)))) [
            | inl t ↦ again later r g (remove r.disk (part_path dst)) refl t q
            | inr t ↦
                receive_fresh r e (hub (request_of sha256_sum url r.offset)) count a o
                  (ground arith)
          ]

  -- A download that finds a partial file, whose first request is answered with status 200 and a
  -- body, and that returns no error though a digest is wanted, writes the body over the partial
  -- file without cutting it off: what the partial file held behind the length of the body stays
  -- at the end of the destination, while only the body has the wanted digest.
  pub download_file_stale :
      (hub : Request → Reply) (hubs : List (Request → Reply)) (url : Bytes) (d e : Disk) (count : ℕ)
      (old body : Bytes)
      → read_file d (part_path dst) ≡ ok old
      → hub (request_of sha256_sum url (length old)) ≡ reply 200 body false
      → download_file sha256_sum (hub ∷ hubs) url dst want d ≡ (e, ok count)
      → (read_file e dst ≡ ok (body ++ drop (length body) old))
        × (hex_encode (sha256_sum body) ≡ want)
  unfolding download_file write_at is_refused receive
  download_file_stale hub hubs url d e count old body r a h =
      copy_body_lem sha256_sum dst n want w (record { offset = 0; hashed = []; disk = d }) e old
        body false count (ground (arith, resume_existing d (part_path dst) old r))
