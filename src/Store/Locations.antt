-- ===== src/Store/Locations.antt =====
-- internal/store/paths_linux.go, paths_darwin.go and paths_windows.go: `DefaultDir`.
-- An environment variable that is not set is empty; `home` is what `os.UserHomeDir` gives. A path is read
-- from its text by `path_of`.
use llmp2p.Common.{Option, none, some, if◌then◌else◌}
use llmp2p.Common.Bytes.{Bytes, codes, is_empty}
use llmp2p.Common.Disk.{FilePath, join_path}

module _ (env : Bytes → Bytes) (home : Option Bytes) (path_of : Bytes → FilePath) where
  -- on macOS
  unfoldable pub default_dir_darwin : FilePath
  default_dir_darwin = elim home [
    | none ↦ path_of (codes ".llmp2p")
    | some h ↦ join_path (path_of h) (codes "Library/Application Support/llmp2p")
  ]

  -- on Linux
  unfoldable pub default_dir_linux : FilePath
  default_dir_linux =
      let data_home = env (codes "XDG_DATA_HOME") in
      if is_empty data_home
      then elim home [
        | none ↦ path_of (codes ".llmp2p")
        | some h ↦ join_path (path_of h) (codes ".local/share/llmp2p")
      ]
      else join_path (path_of data_home) (codes "llmp2p")

  -- on Windows
  unfoldable pub default_dir_windows : FilePath
  default_dir_windows =
      let local = env (codes "LOCALAPPDATA") in
      if is_empty local
      then elim home [
        | none ↦ path_of (codes ".llmp2p")
        | some h ↦ join_path (path_of h) (codes "AppData/Local/llmp2p")
      ]
      else join_path (path_of local) (codes "llmp2p")
