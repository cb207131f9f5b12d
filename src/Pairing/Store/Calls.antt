-- ===== src/Pairing/Store/Calls.antt =====
-- internal/pairing/store.go: the calls on one store in any order, each with the time it is made at and
-- what the file system answers it.
use tantu.Prelude.{ℕ, Bool, Option, List, [], ◌∷◌}
use tantu.Text.{Text}
use tantu.Pairing.Store.{Peer, Io, PeerStore}
use tantu.Pairing.Store.Edits.{
  add_peer, update_peer_address, confirm_peer_address, set_alias, set_default,
}
use tantu.Pairing.Store.Active.{
  get_peer, remove_peer, save_active_peer, load_active_peer, clear_active_peer,
}

pub data Call : Type 0 where
  adds : Peer → Call
  updates confirms renames : Text → Text → Call
  defaults removes selects gets : Text → Call
  clears loads : Call

module _ (is_ip : Text → Bool) (cert_fingerprint : Text → Option Text) where
  unfoldable pub call : Io → ℕ → Call → PeerStore → PeerStore
  unfolding add_peer update_peer_address confirm_peer_address set_alias set_default get_peer
      remove_peer save_active_peer load_active_peer clear_active_peer
  call io now (adds p) s = (add_peer is_ip cert_fingerprint io now p s).1
  call io now (updates fp a) s = (update_peer_address is_ip io now fp a s).1
  call io now (confirms fp a) s = (confirm_peer_address is_ip io now fp a s).1
  call io now (renames fp a) s = (set_alias io fp a s).1
  call io now (defaults fp) s = (set_default io fp s).1
  call io now (removes fp) s = (remove_peer io fp s).1
  call io now (selects fp) s = (save_active_peer io fp s).1
  call io now (gets fp) s = (get_peer io fp s).1
  call io now clears s = (clear_active_peer io s).1
  call io now loads s = (load_active_peer io s).1

  unfoldable pub run : List (Io × ℕ × Call) → PeerStore → PeerStore
  unfolding call
  run [] s = s
  run ((io, now, c) ∷ cs) s = run cs (call io now c s)
