-- ===== src/Daemon/Status.antt =====
-- internal/daemon/daemon.go and metrics.go: the handlers of the status API.
-- What an engine says of its torrents is a parameter, as are `%d` and `%q` of package fmt. JSON bodies are
-- the values that are encoded. Go walks the maps of engines and of counters in any order.
pub mod Laws
use llmp2p.Common.{
  ℕ, Bool, List, [], ◌∷◌, ◌++◌, Option, none, some, Result, ok, err, if◌then◌else◌, length, ◌+◌,
}
use llmp2p.Common.Int.{ℤ, pos, add64}
use llmp2p.Common.Bytes.{Bytes, codes}
use llmp2p.Common.Dict.{Dict}
use llmp2p.Common.Disk.{Disk}
use llmp2p.Store.{Store, models}
use llmp2p.Engine.{Status}
use llmp2p.Daemon.Seeders.{Seeder}

-- `statusResponse`
pub record StatusResponse : Type 0 where
  pub version : Bytes
  pub uptime_seconds : ℤ
  pub models : ℕ
  pub torrents : ℕ
  pub uploaded_bytes : ℤ
  pub seeding_engines : ℕ

-- what the loops of `handleStatus` and `writeMetrics` add up
pub record Totals : Type 0 where
  pub torrents : ℕ
  pub peers : ℤ
  pub uploaded : ℤ
  pub downloaded : ℤ

abbrev pub no_totals : Totals
no_totals = record { torrents = 0; peers = pos 0; uploaded = pos 0; downloaded = pos 0 }

abbrev pub add_status : Totals → Status → Totals
add_status t s = record {
  torrents = t.torrents + 1;
  peers = add64 t.peers s.peers;
  uploaded = add64 t.uploaded s.uploaded;
  downloaded = add64 t.downloaded s.downloaded;
}

unfoldable pub add_statuses : Totals → List Status → Totals
add_statuses t [] = t
add_statuses t (s ∷ ss) = add_statuses (add_status t s) ss

-- `countModels`
unfoldable pub count_models : Disk → Store → ℕ
count_models d s = elim (models d s) [ err e ↦ 0 | ok ids ↦ length ids ]

-- `handleModels`: the list that is encoded, nil after an error
unfoldable pub handle_models : Disk → Store → List Bytes
handle_models d s = elim (models d s) [ err e ↦ [] | ok ids ↦ ids ]

module _ (statuses : Seeder → List Status) where
  unfoldable pub add_engines : Totals → List Seeder → Totals
  add_engines t [] = t
  add_engines t (e ∷ es) = add_engines (add_statuses t (statuses e)) es

  -- `handleStatus`
  unfoldable pub handle_status : Bytes → ℤ → Disk → Store → List Seeder → StatusResponse
  handle_status version uptime d s es =
      let t = add_engines no_totals es in
      record {
        version = version;
        uptime_seconds = uptime;
        models = count_models d s;
        torrents = t.torrents;
        uploaded_bytes = t.uploaded;
        seeding_engines = length es;
      }

  -- `handleTorrents`
  unfoldable pub handle_torrents : List Seeder → List Status
  handle_torrents [] = []
  handle_torrents (e ∷ es) = statuses e ++ handle_torrents es

  module _ (decimal : ℤ → Bytes) (quoted : Bytes → Bytes) where
    -- `writeGauge` and `writeCounter`
    unfoldable pub write_metric : Bytes → Bytes → Bytes → ℤ → Bytes
    write_metric kind name help v =
        codes "# HELP "
        ++ (name
            ++ (b' '
                ∷ (help
                    ++ (10
                        ∷ (codes "# TYPE "
                            ++ (name
                                ++ (b' '
                                    ∷ (kind
                                        ++ (10 ∷ (name ++ (b' ' ∷ (decimal v ++ 10 ∷ []))))))))))))

    -- the counters by outcome
    unfoldable pub write_results : Dict ℕ → Bytes
    write_results [] = []
    write_results ((result, n) ∷ stats) =
        codes "llmp2pd_pulls_total{result="
        ++ (quoted result ++ (codes "} " ++ (decimal (pos n) ++ (10 ∷ write_results stats))))

    -- `writeMetrics`
    unfoldable pub write_metrics : ℤ → Disk → Store → List Seeder → Dict ℕ → Bytes
    write_metrics uptime d s es stats =
        let t = add_engines no_totals es in
        write_metric (codes "gauge") (codes "llmp2pd_uptime_seconds")
          (codes "Seconds since the daemon started.") uptime
        ++ (write_metric (codes "gauge") (codes "llmp2pd_models")
              (codes "Models present in the store.") (pos (count_models d s))
            ++ (write_metric (codes "gauge") (codes "llmp2pd_torrents")
                  (codes "Torrents tracked by the daemon's engines.") (pos t.torrents)
                ++ (write_metric (codes "gauge") (codes "llmp2pd_peers")
                      (codes "Connected peers across all torrents.") t.peers
                    ++ (write_metric (codes "gauge") (codes "llmp2pd_seeding_engines")
                          (codes "Running seeder engines (one per owner directory).")
                          (pos (length es))
                        ++ (write_metric (codes "counter") (codes "llmp2pd_uploaded_bytes_total")
                              (codes "Bytes uploaded to peers since daemon start.") t.uploaded
                            ++ (write_metric (codes "counter")
                                  (codes "llmp2pd_downloaded_bytes_total")
                                  (codes "Bytes downloaded from peers since daemon start.")
                                  t.downloaded
                                ++ (write_metric (codes "counter") (codes "llmp2pd_pulls_total")
                                      (codes "Pull jobs executed by the daemon.")
                                      (pos (length stats))
                                    ++ write_results stats)))))))
