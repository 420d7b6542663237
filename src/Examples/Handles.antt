-- ===== src/Examples/Handles.antt =====
-- The theorem on the server's connections at a concrete run.
use dlg_service.Prelude.{◌≡◌, refl, true, inl, inr, lookup, upsert}
use dlg_service.Server.Handles.{
  Connections, no_connections, accept_fd, insert_handle, get_handle, release_handle, counted,
  inserted, fetched, released, Reachable, fresh, after,
}
use dlg_service.Server.Handles.Counted.{IsCounted, Reachable-IsCounted}

-- A connection comes, is used and is closed, and its descriptor is handed out again while its handle is
-- still in the table.
abbrev opened : Connections
opened = get_handle 5 (insert_handle 5 (accept_fd 5 no_connections))

abbrev reused : Connections
reused = accept_fd 5 (release_handle 5 true 1 opened)

opened-Reachable : Reachable opened
unfolding accept_fd insert_handle lookup
opened-Reachable =
    after
      (after (after fresh (counted 5 no_connections refl (inl refl)))
        (inserted 5 (accept_fd 5 no_connections) refl refl))
      (fetched 5 (insert_handle 5 (accept_fd 5 no_connections)) refl)

reused-Reachable : Reachable reused
unfolding accept_fd insert_handle get_handle release_handle lookup upsert
reused-Reachable =
    after (after opened-Reachable (released 5 true 1 opened refl refl))
      (counted 5 (release_handle 5 true 1 opened) refl (inr refl))

Reachable-IsCounted_example : IsCounted reused
Reachable-IsCounted_example = Reachable-IsCounted reused reused-Reachable

reused_now : reused.now ≡ 2
unfolding accept_fd insert_handle get_handle release_handle lookup upsert
reused_now = refl
