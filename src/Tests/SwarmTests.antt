-- ===== src/Tests/SwarmTests.antt =====
-- The private swarm of the command `pull`, and a daemon that is up.
use llmp2p.Common.{
  ℕ, Bool, true, false, List, [], ◌∷◌, ◌++◌, replicate, Option, none, some, Result, ok, err, ◌≡◌,
  refl, arith,
}
use llmp2p.Common.Int.{pos}
use llmp2p.Common.Bytes.{Bytes, codes}
use llmp2p.Common.Disk.{Disk}
use llmp2p.Manifest.{Manifest}
use llmp2p.Dht.{Record, Answer}
use llmp2p.Hf.{HfError, RepoInfo, no_answer}
use llmp2p.Ref.{Ref}
use llmp2p.Daemon.Seeders.Hub.{IsP2p, delegated, run-IsP2p}
use llmp2p.Pull.Discover.{entry_of_record}
use llmp2p.Pull.Run.{Network, find_manifest, run}
use llmp2p.Cli.Pull.{PullFlags, Surroundings, private_options}
use llmp2p.Cli.Pull.Laws.{IsFromSwarm, find_manifest-IsFromSwarm}
use llmp2p.Tests.Samples.{zeros64, sample_manifest}
use llmp2p.Tests.DhtTests.{item}
use llmp2p.Tests.PullTests.{environment, network, store, disk}

abbrev flags : PullFlags
flags = record {
  http_only = false;
  bootstrap = [];
  grace = pos 5;
  no_daemon = false;
  dht = false;
  swarm_key = zeros64;
  allowed_signers = [];
}

abbrev node : Bytes → Option Answer
node k = some (record { value = codes "d"; key = k; sequence = some 1; signature = [] })

abbrev swarm : Network
swarm = record network { nodes = node ∷ [] }

found_works :
    find_manifest environment swarm store
      (private_options flags zeros64)
      (codes "org/repo")
      (codes "main")
    ≡ ok (entry_of_record (codes "org/repo") item, sample_manifest)
unfolding find_manifest llmp2p.Pull.Run.find_entry private_options llmp2p.Manifest.is_nil
    llmp2p.Pull.Discover.discover llmp2p.Dht.new_client llmp2p.Dht.decode_hex_key
    llmp2p.Common.Bytes.Hex.hex_decode llmp2p.Pull.Discover.discover_loop
    llmp2p.Pull.Discover.accept_record llmp2p.Dht.get_record llmp2p.Dht.get_loop
    llmp2p.Dht.check_answer llmp2p.Common.Bytes.is_empty llmp2p.Common.Bytes.equal
    llmp2p.Dht.check_signed llmp2p.Dht.decode_record llmp2p.Dht.check_record entry_of_record
    llmp2p.Pull.Run.trusted_manifest llmp2p.Manifest.Codec.parse llmp2p.Manifest.validate
    llmp2p.Manifest.validate_content llmp2p.Manifest.check_files llmp2p.Manifest.check_file
    llmp2p.Manifest.validate_manifest_path llmp2p.Common.Bytes.has_prefix
    llmp2p.Common.Bytes.contains_byte llmp2p.Manifest.has_drive llmp2p.Manifest.has_control
    llmp2p.Manifest.check_segments llmp2p.Common.Bytes.split llmp2p.Manifest.sha256_re
    llmp2p.Common.Bytes.class_between llmp2p.Common.Bytes.is_hex_lower llmp2p.Manifest.is_unsorted
    llmp2p.Manifest.info_re
found_works = refl

find_manifest-IsFromSwarm_example :
    IsFromSwarm swarm environment zeros64
      (codes "org/repo")
      (codes "main")
      (entry_of_record (codes "org/repo") item)
      sample_manifest
find_manifest-IsFromSwarm_example =
    find_manifest-IsFromSwarm environment swarm store flags zeros64 (codes "org/repo")
      (codes "main") (entry_of_record (codes "org/repo") item) sample_manifest found_works

-- a daemon that accepts no pull
abbrev surroundings : Surroundings
surroundings = record {
  path_of = λ s. s ∷ [];
  root = codes "r" ∷ [];
  daemon_up = true;
  post = λ r b. some (503, λ j. none);
  gets = [];
  resolution = λ r. err no_answer;
  now = 0;
}

abbrev whole : Ref
whole = record { owner = codes "org"; repo = codes "repo"; revision = codes "main"; path = [] }

abbrev no_files : Result HfError RepoInfo
no_files = ok (record { revision = codes "main"; files = [] })

run-IsP2p_example :
    ¬ IsP2p environment swarm store false
      (run environment swarm store (delegated environment swarm store false) 0 whole no_files disk)
run-IsP2p_example = run-IsP2p environment swarm store false 0 whole no_files disk
