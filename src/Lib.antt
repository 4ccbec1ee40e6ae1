-- ===== src/Lib.antt =====
-- llmp2p distributes models of the Hugging Face Hub between peers. A pull turns a reference
-- `hf:owner/repo@revision#path` into files below a local store: it looks for a swarm in a bootstrap
-- index, checks what arrives against a manifest that pins every file's size and sha256, and falls
-- back to the Hub. What was pulled is published: a manifest, a torrent, an entry of the local index.
-- The commands of `llmp2p` work on the store; the daemon `llmp2pd` seeds what the store holds and
-- takes over pulls, which the command `pull` hands to it and polls.
--
-- Files, and the code they model (paths from the repository's root):
--
--   Ref, Ref/*            internal/ref/ref.go: Parse, validate, ValidModelID, ID, String
--   Manifest              internal/manifest/manifest.go: File, Manifest, Validate
--   Manifest/Path         validateManifestPath, against what a safe path is
--   Manifest/Content      validateContent, against what a manifest should be
--   Manifest/Codec        Bytes, SHA256, Parse, Save, Load
--   Manifest/Verify       VerifyDir, hashFile, HashContent
--   Manifest/Stored       a model on the disk: the manifest next to the files that it lists
--   Manifest/Create, its  internal/manifest/builder.go: Create, buildInfo, MetaInfoBytes
--     Laws
--   Index, Index/Laws     internal/index/index.go: Entry, Index, Validate, Get, Add, Remove, Parse
--   Index/Fetch           Fetch, ManifestURL
--   Index/Listing         Add and Remove against the table that an index stands for
--   Store, Store/Paths    internal/store/store.go: the paths, Open, Models
--   Store/Home            where the model of a reference is
--   Store/Locations       internal/store/paths_linux.go and its like: DefaultDir
--   Store/Remove          Remove, and Save of the index
--   Dht                   internal/dht/record.go and client.go: DecodeRecord, NewClient, Get
--   Dht/Publisher         internal/dht/publisher.go: the sequence counters, Put
--   Hf                    internal/hf/client.go and repo.go: base URL, responses, files of a page
--   Hf/Listing            internal/hf/repo.go: Resolve, listTree, linkNext
--   Hf/Download           internal/hf/download.go: DownloadFile, resumeState, artifactURL
--   Pull                  internal/pull/pull.go: filterPath, checkCache; internal/signing/signing.go:
--                         Verify
--   Pull/Origins          fetchManifest, fetchManifestSignature, verifyManifestSignature
--   Pull/Discover         internal/pull/dht.go: discoverViaDHT
--   Pull/Publish          publish, publishLocalIndex
--   Pull/Announce         signManifest, and publishToDHT of internal/pull/dht.go
--   Pull/Http             pullHTTP
--   Pull/Swarm            the wait of pullP2P for the swarm, engBytes
--   Pull/Run              pullP2P, Run; Pull/Laws/Fallback: when a pull goes to the Hub
--   Engine                internal/engine/engine.go: hashFromHex, pull, the magnets, SeedTorrentFile
--   Daemon/Queue          internal/daemon/pull.go: the queue of pulls and its handlers; Steps are the
--                         interleavings of its goroutines, Invariant what they keep, Drain that
--                         they end
--   Daemon/Seeders        internal/daemon/daemon.go: defaultPullTemplate, startSeeders, Run;
--                         Daemon/Seeders/Hub: a delegated pull with the default template
--   Daemon/Status         the handlers of the status API, and internal/daemon/metrics.go
--   Ollama, Ollama/Names, internal/ollama/ollama.go: DefaultName, FindGGUF, Create; Shards the names
--     Ollama/Shards       of shards
--   Cli, Cli/Models       internal/cli: list, verify, remove; Cli/Models/Intact: a model in order
--   Cli/Keys              resolveSwarmKey, keygen, and LoadOrCreate of internal/signing/signing.go
--   Cli/Delegate          delegatePull of internal/cli/daemon.go, against Daemon/Queue
--   Cli/Pull              the command pull: its options, the daemon, the pull itself
--   Cli/Targets           seed and import
--   Laws, Pull/Laws/Trust what the modules above them are shown to do
--   Common                Boolean tests, lists, results, int64, and the parts of Go's strings,
--                         encoding/hex, path/filepath and os that the code uses
--   Tests                 runs on small data, and an instance of each result
--
-- Conventions. A Go string is a list of bytes, each a natural number. An int64 is an integer whose
-- sums wrap around (`add64`). A function that returns an error returns a `Result`, or an `Option` of
-- the error where it returns nothing else; errors are values without their text. A pointer that may
-- be nil is an `Option`. A Go map is an association list. A path is the list of segments of a cleaned
-- absolute path; a disk is a list of nodes by path and the set of paths at which the system refuses
-- every operation. A function that changes the disk takes it and returns the next one. All loops of
-- the model run over a list, so that none needs fuel: DownloadFile calls itself when a range is
-- refused, over the list of the Hub's answers, and where the list ends no answer comes.
--
-- Parameters. encoding/json, crypto/sha256 and the torrent library are records of functions with
-- named laws (`IsLawful`), the network is a function from a URL to a response, the Hub is a list of
-- answers, the torrent engine is a function of the disk, and the time is a number.
--
-- The queue of the daemon is a relation between states: a step is a new job, or a goroutine that
-- takes the semaphore, starts its job, ends it, or gives the semaphore back; any goroutine that waits
-- may be next. What one command or request sees of a process outside - the answers of the Hub, of
-- the daemon to its polls, the observations of a torrent, the events of a wait - is a list of what
-- comes in order, and where it ends nothing more comes.
--
-- Not modelled: the HTTP server with its routes and timeouts, the definitions of flags, signals
-- and printing, the access token and the headers of a request, the timeout of a delegated pull
-- (it shows as a pull that fails), context cancellation elsewhere, the lock of the store but for
-- the daemon's loop for it, symbolic links and file modes, partial writes, the order of Go's map
-- iteration but where the daemon starts its engines (there it is a parameter), a file of sequence
-- counters that holds `null`, UTF-8 repair by encoding/json, letters beyond ASCII in upper and
-- lower case, log lines, the disk between the steps of a publication that fails, and the two main
-- programs, which call the parts above.
pub mod Cli
pub mod Common
pub mod Daemon
pub mod Dht
pub mod Engine
pub mod Hf
pub mod Index
pub mod Manifest
pub mod Ollama
pub mod Pull
pub mod Ref
pub mod Store
pub mod Tests
