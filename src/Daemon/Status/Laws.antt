-- ===== src/Daemon/Status/Laws.antt =====
-- The answers of the status API agree with each other.
use llmp2p.Common.{◌+◌, List, [], ◌∷◌, ◌++◌, ◌≡◌, refl, sym, ◌∙◌, ap, arith, length}
use llmp2p.Common.Int.{ℤ}
use llmp2p.Common.Bytes.{Bytes}
use llmp2p.Common.Disk.{Disk}
use llmp2p.Store.{Store}
use llmp2p.Engine.{Status}
use llmp2p.Daemon.Seeders.{Seeder}
use llmp2p.Daemon.Status.{
  Totals, no_totals, add_status, add_statuses, add_engines, count_models, handle_models,
  handle_status, handle_torrents,
}

add_statuses-append :
    (t : Totals) (a b : List Status) → add_statuses t (a ++ b) ≡ add_statuses (add_statuses t a) b
unfolding add_statuses
add_statuses-append t [] b = refl
add_statuses-append t (s ∷ a) b = add_statuses-append (add_status t s) a b

torrents-add_statuses :
    (t : Totals) (ss : List Status) → (add_statuses t ss).torrents ≡ t.torrents + length ss
unfolding add_statuses
torrents-add_statuses t [] = omega arith
torrents-add_statuses t (s ∷ ss) = torrents-add_statuses (add_status t s) ss ∙ omega arith

module _ (statuses : Seeder → List Status) where
  add_engines_lem :
      (t : Totals) (es : List Seeder)
      → add_engines statuses t es ≡ add_statuses t (handle_torrents statuses es)
  unfolding add_engines add_statuses handle_torrents
  add_engines_lem t [] = refl
  add_engines_lem t (e ∷ es) =
      add_engines_lem (add_statuses t (statuses e)) es
      ∙ sym (add_statuses-append t (statuses e) (handle_torrents statuses es))

  -- The status counts the torrents and the models that the other two answers list, and its uploaded bytes
  -- are those of the listed torrents.
  pub handle_status_lem :
      (version : Bytes) (uptime : ℤ) (d : Disk) (s : Store) (es : List Seeder)
      → ((handle_status statuses version uptime d s es).torrents
          ≡ length (handle_torrents statuses es))
        × ((handle_status statuses version uptime d s es).models ≡ length (handle_models d s))
        × ((handle_status statuses version uptime d s es).uploaded_bytes
            ≡ (add_statuses no_totals (handle_torrents statuses es)).uploaded)
  unfolding handle_status count_models handle_models
  handle_status_lem version uptime d s es = (
    ap (λ t. t.torrents) (add_engines_lem no_totals es)
        ∙ (torrents-add_statuses no_totals (handle_torrents statuses es) ∙ omega arith),
    ground arith,
    ap (λ t. t.uploaded) (add_engines_lem no_totals es),
  )
