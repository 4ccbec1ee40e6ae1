-- ===== src/Cli/Delegate.antt =====
-- internal/cli/daemon.go: `delegatePull`, which hands a pull to the daemon and asks for its job every second.
-- An answer is the function by which its body is decoded into the job of before; fields that the body
-- lacks stay. `none` is a request without an answer. The list of the answers to the polls ends where no
-- more are made.
pub mod Laws
use llmp2p.Common.{
  ℕ, Bool, true, false, not, ◌||◌, List, [], ◌∷◌, Option, none, some, Result, ok, err,
  if◌then◌else◌, ◌==◌,
}
use llmp2p.Common.Bytes.{Bytes, codes, equal}
use llmp2p.Pull.{Pulled}
use llmp2p.Cli.{CliError, no_answer, bad_answer, rejected}

-- `jobResult`
pub record JobResult : Type 0 where
  pub id : Bytes
  pub status : Bytes
  pub error : Bytes
  pub result : Option Pulled

abbrev pub no_job : JobResult
no_job = record { id = []; status = []; error = []; result = none }

abbrev pub Decoder : Type 0
Decoder = JobResult → Option JobResult

unfoldable pub is_final : Bytes → Bool
is_final s = equal s (codes "succeeded") || equal s (codes "failed")

-- the loop; `none` where it still polls
unfoldable pub poll_loop :
    List (Bytes → Option Decoder) → JobResult → Option (Result CliError JobResult)
poll_loop [] job = none
poll_loop (get ∷ gets) job = elim (get job.id) [
  | none ↦ some (err no_answer)
  | some decode ↦ elim (decode job) [
    | none ↦ some (err bad_answer)
    | some j ↦ if is_final j.status then some (ok j) else poll_loop gets j
  ]
]

-- the answer to the request for a job
unfoldable pub accept_job : ℕ → Option JobResult → Result CliError JobResult
accept_job status job =
    if not (status == 202)
    then err (rejected status)
    else elim job [ none ↦ err bad_answer | some j ↦ ok j ]

-- `delegatePull`
unfoldable pub delegate_pull :
    (Bytes → Bool → Option (ℕ × Decoder))
    → List (Bytes → Option Decoder)
    → Bytes
    → Bool
    → Option (Result CliError JobResult)
delegate_pull post gets ref http_only = elim (post ref http_only) [
  | none ↦ some (err no_answer)
  | some (status, decode) ↦ elim (accept_job status (decode no_job)) [
    | err e ↦ some (err e)
    | ok j ↦ poll_loop gets j
  ]
]
