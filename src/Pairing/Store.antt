-- ===== src/Pairing/Store.antt =====
-- internal/pairing/store.go: the store of trusted peers and the selection of the active one. A file is
-- what it decodes to; what the file system answers to each call is an input, as are the clock, the
-- fingerprint of a certificate and `net.ParseIP`. Times are nanoseconds, 0 is the zero time.
pub mod Edits
pub mod Active
pub mod Calls
pub mod Removed
pub mod Held
pub mod Sound
pub mod Runs
pub mod Moves
pub mod Tests
use tantu.Prelude.{
  ℕ, suc, ◌+◌, ◌*◌, Bool, true, false, not, ◌&&◌, ◌||◌, Option, none, some, List, [], ◌∷◌, ltb,
  ◌==◌, if◌then◌else◌, length,
}
use tantu.Text.{Text, is_empty, contains_byte, ◌=t◌, equal_fold, to_lower, trim_space}
use tantu.Text.Assoc.{lookup, put, delete}
use tantu.Pairing.Address.{
  PeerError, fingerprint_empty, fingerprint_invalid, cert_too_large, cert_invalid, cert_mismatch,
  lock_failed, load_failed, save_failed, restore_failed, active_unreadable, active_irregular,
  active_undecodable, active_not_removed, peer_not_found, Check, ◌then_check◌,
  normalize_peer_address, validate_peer_label, validate_peer_address,
}

pub record Peer : Type 0 where
  pub fingerprint : Text
  pub name : Text
  pub alias : Text
  pub is_default : Bool
  pub address : Text
  pub cert_pem : Text
  pub first_seen : ℕ
  pub last_seen : ℕ
  pub last_address_confirmed : ℕ

abbrev pub Peers : Type 0
Peers = List (Text × Peer)

-- A file and the copy beside it, with the suffix `.bak`, that a replacement may leave.
pub record File (A : Type 0) : Type 0 where
  pub main : Option A
  pub backup : Option A

-- What is on disk as peers.json: no permission to read it, nothing, no JSON, a map.
pub data Contents : Type 0 where
  unreadable blank corrupt : Contents
  holds : Peers → Contents

-- active.json: a fault of the file system, too long or no JSON, a link to a selection, a selection.
pub data Selection : Type 0 where
  faulty malformed : Selection
  linked names : Text → Selection

pub record PeerStore : Type 0 where
  pub peers : File Contents
  pub active : File Selection
  pub last_load_failed : Bool
  pub peer_reads : ℕ

-- What the file system answers: whether the lock was had in time, the backup restored, the temporary
-- file written, each rename of a replacement and each removal done: of a backup that was left over, of
-- the backup behind a replacement, and of a file.
pub record Io : Type 0 where
  pub locked : Bool
  pub restored : Bool
  pub written : Bool
  pub renamed : Bool
  pub preserved : Bool
  pub retried : Bool
  pub put_back : Bool
  pub cleared : Bool
  pub tidied : Bool
  pub removed : Bool

pub data Outcome {ℓ} (A : Type ℓ) : Type ℓ where
  ok : A → Outcome A
  err : PeerError → Outcome A

abbrev pub is_there {ℓ} : {A : Type ℓ} → Option A → Bool
is_there none = false
is_there (some a) = true

-- writeAtomic, with preserveDestination: whether it succeeded, and the file. Where there is nothing to
-- preserve, preserving fails.
unfoldable pub write_atomic : {A : Type 0} → Io → A → File A → Bool × File A
write_atomic io a f =
    if not io.written
    then (false, f)
    else if io.renamed
    then (true, record f { main = some a })
    else if not (io.preserved && is_there f.main)
    then (false, record f { backup = if io.cleared then none else f.backup })
    else if io.retried
    then (true, record { main = some a; backup = if io.tidied then none else f.main })
    else if io.put_back
    then (false, record { main = f.main; backup = none })
    else (false, record { main = none; backup = f.main })

abbrev pub restored_of : {A : Type 0} → Io → Option A → Option A → Bool × File A
restored_of io (some a) b = (true, record { main = some a; backup = b })
restored_of io none none = (true, record { main = none; backup = none })
restored_of io none (some b) =
    if io.restored
    then (true, record { main = some b; backup = none })
    else (false, record { main = none; backup = some b })

unfoldable pub restore_backup_if_missing : {A : Type 0} → Io → File A → Bool × File A
restore_backup_if_missing io f = restored_of io f.main f.backup

abbrev pub decoded_peers : Contents → Outcome Peers
decoded_peers unreadable = err load_failed
decoded_peers blank = ok []
decoded_peers corrupt = err load_failed
decoded_peers (holds m) = ok m

-- A file that was missing at first is read again; a fault then counts as no file.
abbrev pub read_again : Option Contents → Outcome Peers
read_again none = ok []
read_again (some unreadable) = ok []
read_again (some blank) = ok []
read_again (some corrupt) = err load_failed
read_again (some (holds m)) = ok m

abbrev pub has_failed {ℓ} : {A : Type ℓ} → Outcome A → Bool
has_failed (ok a) = false
has_failed (err e) = true

abbrev noted : PeerStore → File Contents → Outcome Peers → Outcome Peers × PeerStore
noted s f r =
    (r, record s { peers = f; last_load_failed = has_failed r; peer_reads = s.peer_reads + 1 })

abbrev pub loaded_of : Option Contents → Io → PeerStore → Outcome Peers × PeerStore
loaded_of (some c) io s = noted s s.peers (decoded_peers c)
loaded_of none io s =
    let (done, f) = restore_backup_if_missing io s.peers in
    noted s f (if done then read_again f.main else err restore_failed)

unfoldable pub load_peers_map : Io → PeerStore → Outcome Peers × PeerStore
unfolding restore_backup_if_missing
load_peers_map io s = loaded_of s.peers.main io s

unfoldable pub save_peers_map : Io → Peers → PeerStore → Check × PeerStore
unfolding write_atomic
save_peers_map io m s =
    let (saved, f) = write_atomic io (holds m) s.peers in
    (if saved then none else some save_failed, record s { peers = f })

abbrev pub stored : Io → Outcome Peers → PeerStore → Check × PeerStore
stored io (err e) s = (some e, s)
stored io (ok m) s = save_peers_map io m s

abbrev pub changed : Io → (Peers → Outcome Peers) → Outcome Peers → PeerStore → Check × PeerStore
changed io change (err e) s = (some e, s)
changed io change (ok m) s = stored io (change m) s

-- withPeerMutationLock around a load, a change of the map and a save.
unfoldable pub mutate : Io → (Peers → Outcome Peers) → PeerStore → Check × PeerStore
unfolding load_peers_map save_peers_map
mutate io change s =
    if not io.locked
    then (some lock_failed, s)
    else (let (loaded, s') = load_peers_map io s in changed io change loaded s')

-- A mutation behind the check of its arguments.
unfoldable pub checked_mutate : Check → Io → (Peers → Outcome Peers) → PeerStore → Check × PeerStore
unfolding mutate
checked_mutate (some e) io change s = (some e, s)
checked_mutate none io change s = mutate io change s

abbrev pub key_of : Text → Text
key_of fingerprint = to_lower (trim_space fingerprint)

-- `change` of the entry at a key that the map must have
unfoldable pub at_peer : Text → (Peer → Peer) → Peers → Outcome Peers
at_peer fp change m = elim (lookup fp m) [
  | none ↦ err peer_not_found
  | some p ↦ ok (put fp (change p) m)
]

abbrev pub or_text : Text → Text → Text
or_text [] t = t
or_text (c ∷ s) t = c ∷ s

abbrev pub or_time : ℕ → ℕ → ℕ
or_time a b = if a == 0 then b else a
