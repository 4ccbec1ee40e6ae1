-- ===== src/Ollama.antt =====
-- internal/ollama/ollama.go: the import of a GGUF file into Ollama.
-- `filepath.Walk` is the list of what it visits. `exec.LookPath` and the run of a command are parameters.
-- `strings.ToLower` is that of ASCII letters. `os.CreateTemp` gives a free path that can be written.
pub mod Names
pub mod Shards
pub mod Laws
use llmp2p.Common.{
  ℕ, zero, suc, Bool, true, false, not, ◌&&◌, ◌||◌, List, [], ◌∷◌, ◌++◌, Option, none, some, Result,
  ok, err, ◌>>=◌, if◌then◌else◌, ◌==◌, length,
}
use llmp2p.Common.Bytes.{
  Bytes, codes, cut, cut_prefix, is_empty, equal, is_digit, is_hex_lower, is_lower, to_lower,
  trim_by, has_suffix, join,
}
use llmp2p.Common.Disk.{FilePath, IoError, Disk, Node, file, dir, stat, write_file, remove}

pub data OllamaError : Type 0 where
  walk_failed stat_failed : IoError → OllamaError
  split_gguf several_gguf : List FilePath → OllamaError
  no_gguf no_temp : OllamaError
  not_gguf : FilePath → OllamaError
  no_binary : Bytes → OllamaError
  create_failed : Bytes → OllamaError

-- `[a-z0-9._-]`
unfoldable pub is_name_byte : ℕ → Bool
is_name_byte c = is_lower c || is_digit c || (c == b'.' || (c == b'_' || c == b'-'))

unfoldable pub starts_outside : Bytes → Bool
starts_outside [] = false
starts_outside (c ∷ cs) = not (is_name_byte c)

-- `ReplaceAllString(repo, "-")`: each run of other bytes gives one dash
unfoldable pub replace_runs : Bytes → Bytes
replace_runs [] = []
replace_runs (c ∷ cs) =
    let rest = replace_runs cs in
    if is_name_byte c then c ∷ rest else if starts_outside cs then rest else b'-' ∷ rest

-- the cutset `-.`
unfoldable pub is_edge : ℕ → Bool
is_edge c = c == b'-' || c == b'.'

-- what is behind the first slash, or everything
unfoldable pub repo_of : Bytes → Bytes
repo_of id = elim (cut b'/' id) [ none ↦ id | some p ↦ p.1 ]

-- the name where nothing is left
abbrev pub fallback_name : Bytes
fallback_name = codes "llmp2p-model"

unfoldable pub or_fallback : Bytes → Bytes
or_fallback [] = fallback_name
or_fallback (c ∷ cs) = c ∷ cs

-- `DefaultName`
unfoldable pub default_name : Bytes → Bytes
default_name id = or_fallback (trim_by is_edge (replace_runs (to_lower (repo_of id))))

-- `shardRe`: `-\d{5}-of-\d{5}\.gguf$`
unfoldable pub skip : Bytes → Option Bytes → Option Bytes
skip p none = none
skip p (some s) = cut_prefix s p

unfoldable pub skip_digit : Option Bytes → Option Bytes
skip_digit none = none
skip_digit (some []) = none
skip_digit (some (c ∷ cs)) = if is_digit c then some cs else none

unfoldable pub skip_digits : ℕ → Option Bytes → Option Bytes
skip_digits zero s = s
skip_digits (suc n) s = skip_digits n (skip_digit s)

unfoldable pub is_text : Bytes → Option Bytes → Bool
is_text t none = false
is_text t (some s) = equal s t

unfoldable pub shard_here : Bytes → Bool
shard_here s =
    is_text (codes ".gguf")
      (skip_digits 5 (skip (codes "-of-") (skip_digits 5 (skip (codes "-") (some s)))))

unfoldable pub is_shard : Bytes → Bool
is_shard [] = false
is_shard (c ∷ cs) = shard_here (c ∷ cs) || is_shard cs

-- what `filepath.Walk` calls its function with: an error, or a path and whether it is a directory
pub data Visit : Type 0 where
  failed : IoError → Visit
  seen : FilePath → Bool → Visit

unfoldable pub base : FilePath → Bytes
base [] = codes "/"
base (a ∷ []) = a
base (a ∷ b ∷ p) = base (b ∷ p)

unfoldable pub is_gguf : Bytes → Bool
is_gguf name = has_suffix (to_lower name) (codes ".gguf")

-- the lists `shards` and `ggufs`, with one file more
unfoldable pub sort_out :
    FilePath → Bool → List FilePath × List FilePath → List FilePath × List FilePath
sort_out p is_dir found =
    if is_dir || not (is_gguf (base p))
    then found
    else if is_shard (base p)
    then (p ∷ found.0, found.1)
    else (found.0, p ∷ found.1)

-- the walk
unfoldable pub collect : List Visit → Result OllamaError (List FilePath × List FilePath)
collect [] = ok ([], [])
collect (failed e ∷ vs) = err (walk_failed e)
collect (seen p is_dir ∷ vs) =
    let rest = collect vs in elim rest [ err e ↦ err e | ok found ↦ ok (sort_out p is_dir found) ]

unfoldable pub choose : List FilePath × List FilePath → Result OllamaError FilePath
choose (s ∷ ss, ggufs) = err (split_gguf (s ∷ ss))
choose ([], []) = err no_gguf
choose ([], p ∷ []) = ok p
choose ([], p ∷ q ∷ ps) = err (several_gguf (p ∷ q ∷ ps))

-- `FindGGUF`
unfoldable pub find_gguf : List Visit → Result OllamaError FilePath
find_gguf vs = collect vs >>= choose

-- the command that is run
pub record Command : Type 0 where
  pub bin : Bytes
  pub args : List Bytes
  pub host : Bytes

-- a path, and the contents of the Modelfile
unfoldable pub path_text : FilePath → Bytes
path_text p = b'/' ∷ join b'/' p

unfoldable pub modelfile_text : FilePath → Bytes
modelfile_text gguf = codes "FROM " ++ (path_text gguf ++ 10 ∷ [])

-- `info.IsDir() || info.Size() == 0`
unfoldable pub is_blank : Node → Bool
is_blank dir = true
is_blank (file b) = is_empty b

abbrev pub bin_of : Bytes → Bytes
bin_of b = if is_empty b then codes "ollama" else b

-- the deferred removal
unfoldable pub drop_temp : FilePath → Disk × Option OllamaError → Disk × Option OllamaError
drop_temp tmp r = elim (remove r.0 tmp) [ err e ↦ r | ok d ↦ (d, r.1) ]

module _ (look_path : Bytes → Bool) (execute : Command → Disk → Disk × Bool) where
  abbrev pub command_of : Bytes → Bytes → Bytes → FilePath → Command
  command_of bin name host tmp = record {
    bin = bin_of bin;
    args = codes "create" ∷ name ∷ codes "-f" ∷ path_text tmp ∷ [];
    host = host;
  }

  -- behind the Modelfile
  unfoldable pub run_create : Bytes → Bytes → Bytes → FilePath → Disk → Disk × Option OllamaError
  run_create bin name host tmp d =
      if not (look_path (bin_of bin))
      then (d, some (no_binary (bin_of bin)))
      else (let r = execute (command_of bin name host tmp) d in
          (r.0, if r.1 then none else some (create_failed name)))

  -- `Create`; `tmp` is what `os.CreateTemp` gives
  unfoldable pub create :
      Option FilePath → Bytes → FilePath → Bytes → Bytes → Disk → Disk × Option OllamaError
  create tmp bin gguf name host d = elim (stat d gguf) [
    | err e ↦ (d, some (stat_failed e))
    | ok n ↦ if is_blank n then (d, some (not_gguf gguf)) else elim tmp [
      | none ↦ (d, some no_temp)
      | some t ↦ elim (write_file d t (modelfile_text gguf)) [
        | err e ↦ (d, some no_temp)
        | ok f ↦ drop_temp t (run_create bin name host t f)
      ]
    ]
  ]
