-- ===== src/Hf/Download.antt =====
-- internal/hf/download.go: `DownloadFile`, which resumes a partial file.
-- The Hub is the list of its answers to the requests that are made one after the other, each a
-- function of the request; where the list ends, no answer comes. `DownloadFile` calls itself when the
-- range is refused, each time with the rest of the list. The running digest is kept as the bytes that
-- were fed to it. A reply is a status, a body, and whether reading the body failed behind it.
pub mod Laws
use llmp2p.Common.{
  zero, suc, ℕ, ◌+◌, Bool, true, false, not, ◌&&◌, List, [], ◌∷◌, ◌++◌, Option, none, some, Result,
  ok, err, if◌then◌else◌, ◌==◌, leb, ltb, length, drop,
}
use llmp2p.Common.Bytes.{Bytes, codes, equal, is_empty, split, join}
use llmp2p.Common.Bytes.Hex.{hex_encode}
use llmp2p.Common.Disk.{
  FilePath, IoError, not_exist, denied, is_directory, not_directory, not_empty, Disk, stat,
  read_file, write_file, remove, rename,
}
use llmp2p.Hf.{base_url}

pub record Request : Type 0 where
  pub url : Bytes
  pub range : Option ℕ

pub data Reply : Type 0 where
  no_answer : Reply
  reply : ℕ → Bytes → Bool → Reply

pub data DownloadError : Type 0 where
  io : IoError → DownloadError
  unanswered not_found copy_failed : DownloadError
  http_error : ℕ → DownloadError
  checksum : Bytes → DownloadError

-- `dst + ".llmp2p.part"`
unfoldable pub part_path : FilePath → FilePath
part_path [] = []
part_path (a ∷ []) = (a ++ codes ".llmp2p.part") ∷ []
part_path (a ∷ b ∷ p) = a ∷ part_path (b ∷ p)

-- What `resumeState` returns: the offset, what the hasher has read, and the disk.
pub record Resume : Type 0 where
  pub offset : ℕ
  pub hashed : Bytes
  pub disk : Disk

unfoldable pub create_part : Disk → FilePath → Result IoError Resume
create_part d tmp = elim (write_file d tmp []) [
  | err e ↦ err e
  | ok e ↦ ok (record { offset = 0; hashed = []; disk = e })
]

-- `resumeState`
unfoldable pub resume_state : Disk → FilePath → Result IoError Resume
resume_state d tmp = elim (stat d tmp) [
  | ok n ↦ elim (read_file d tmp) [
    | err e ↦ err e
    | ok b ↦ ok (record { offset = length b; hashed = b; disk = d })
  ]
  | err not_exist ↦ create_part d tmp
  | err denied ↦ err denied
  | err is_directory ↦ err is_directory
  | err not_directory ↦ err not_directory
  | err not_empty ↦ err not_empty
]

-- Writing at an offset overwrites what is there, and keeps what is behind.
unfoldable pub write_at : ℕ → Bytes → Bytes → Bytes
write_at zero new old = new ++ drop (length new) old
write_at (suc n) new [] = new
write_at (suc n) new (c ∷ old) = c ∷ write_at n new old

module _ (path_escape : Bytes → Bytes) where
  unfoldable pub escape_all : List Bytes → List Bytes
  escape_all [] = []
  escape_all (s ∷ ss) = path_escape s ∷ escape_all ss

  -- `(*Client).artifactURL`
  unfoldable pub artifact_url : Bytes → Bytes → Bytes → Bytes → Bytes
  artifact_url base repo_id revision path =
      base_url base
      ++ (b'/'
          ∷ join b'/' (
              escape_all (split b'/' repo_id)
              ++ (codes "resolve"
                  ∷ (escape_all (split b'/' revision) ++ escape_all (split b'/' path)))))

module _ (sha256_sum : Bytes → Bytes) where
  -- the digest is compared, and the partial file takes its place
  unfoldable pub finish :
      Disk → FilePath → FilePath → Bytes → ℕ → Bytes → Disk × Result DownloadError ℕ
  finish d tmp dst want total hashed =
      let got = hex_encode (sha256_sum hashed) in
      if not (is_empty want) && not (equal got want)
      then elim (remove d tmp) [ err e ↦ (d, err (checksum got)) | ok e ↦ (e, err (checksum got)) ]
      else elim (rename d tmp dst) [ err e ↦ (d, err (io e)) | ok e ↦ (e, ok total) ]

  -- the body is written at the offset and hashed behind `r.hashed`
  unfoldable pub copy_body :
      FilePath → FilePath → Bytes → Resume → Bytes → Bytes → Bool → Disk × Result DownloadError ℕ
  copy_body tmp dst want r old body broken =
      elim (write_file r.disk tmp (write_at r.offset body old)) [
        | err e ↦ (r.disk, err (io e))
        | ok e ↦
            if broken
            then (e, err copy_failed)
            else finish e tmp dst want (r.offset + length body) (r.hashed ++ body)
      ]

  -- the rest of `DownloadFile` behind the answer, unless the range was refused
  unfoldable pub receive :
      FilePath → FilePath → Bytes → Resume → Reply → Disk × Result DownloadError ℕ
  receive tmp dst want r no_answer = (r.disk, err unanswered)
  receive tmp dst want r (reply status body broken) =
      if status == 206
      then copy_body tmp dst want r r.hashed body broken
      else if status == 404
      then (r.disk, err not_found)
      else if leb 200 status && ltb status 300
      then copy_body tmp dst want (record r { offset = 0; hashed = [] }) r.hashed body broken
      else (r.disk, err (http_error status))

  -- the status 416: the range was refused
  unfoldable pub is_refused : Reply → Bool
  is_refused no_answer = false
  is_refused (reply status body broken) = status == 416

  unfoldable pub request_of : Bytes → ℕ → Request
  request_of url offset = record { url = url; range = if offset == 0 then none else some offset }

  -- `DownloadFile`
  unfoldable pub download_file :
      List (Request → Reply) → Bytes → FilePath → Bytes → Disk → Disk × Result DownloadError ℕ
  download_file [] url dst want d = elim (resume_state d (part_path dst)) [
    | err e ↦ (d, err (io e))
    | ok r ↦ (r.disk, err unanswered)
  ]
  download_file (hub ∷ hubs) url dst want d = elim (resume_state d (part_path dst)) [
    | err e ↦ (d, err (io e))
    | ok r ↦
        let answer = hub (request_of url r.offset) in
        elim (is_refused answer) [
          | false ↦ receive (part_path dst) dst want r answer
          | true ↦ elim (remove r.disk (part_path dst)) [
            | err not_exist ↦ download_file hubs url dst want r.disk
            | err denied ↦ (r.disk, err (io denied))
            | err is_directory ↦ (r.disk, err (io is_directory))
            | err not_directory ↦ (r.disk, err (io not_directory))
            | err not_empty ↦ (r.disk, err (io not_empty))
            | ok e ↦ download_file hubs url dst want e
          ]
        ]
  ]
