-- ===== src/Pairing/Store/Edits.antt =====
-- internal/pairing/store.go: the operations that change an entry of the store.
use tantu.Prelude.{
  ℕ, ◌*◌, Bool, true, false, not, ◌&&◌, ◌||◌, Option, none, some, [], ◌∷◌, ltb, if◌then◌else◌,
  length,
}
use tantu.Text.{Text, is_empty, contains_byte, ◌=t◌, equal_fold, trim_space}
use tantu.Text.Assoc.{lookup, put}
use tantu.Pairing.Address.{
  fingerprint_empty, fingerprint_invalid, cert_too_large, cert_invalid, cert_mismatch,
  peer_not_found, Check, ◌then_check◌, normalize_peer_address, validate_peer_label,
  validate_peer_address,
}
use tantu.Pairing.Store.{
  Peer, Peers, Io, Outcome, ok, err, PeerStore, mutate, checked_mutate, key_of, at_peer, or_text,
  or_time, load_peers_map,
}

-- What AddPeer keeps of an entry that stands there, and the times it sets.
unfoldable pub merged : ℕ → Option Peer → Peer → Peer
merged now old p =
    let q : Peer = elim old [
      | none ↦ p
      | some e ↦ record p {
        first_seen = or_time p.first_seen e.first_seen;
        alias = or_text p.alias e.alias;
        is_default = p.is_default || e.is_default;
        name = or_text p.name e.name;
        cert_pem = or_text p.cert_pem e.cert_pem;
        address = or_text p.address e.address;
      }
    ] in
    record q {
      first_seen = or_time q.first_seen now;
      last_seen = now;
      last_address_confirmed = if is_empty q.address then q.last_address_confirmed else now;
    }

-- The entry that AddPeer writes is made of the one that stands there.
unfoldable pub with_peer : ℕ → Peer → Peers → Outcome Peers
unfolding merged
with_peer now p m = ok (put p.fingerprint (merged now (lookup p.fingerprint m) p) m)

abbrev pub addressed : ℕ → Text → Peer → Peer
addressed now address p = record p {
  address = address;
  last_seen = now;
  last_address_confirmed = now;
}

abbrev validate_fingerprint : Text → Check
validate_fingerprint fp =
    if is_empty fp
    then some fingerprint_empty
    else if ltb 256 (length fp) || contains_byte fp 13 || contains_byte fp 10 || contains_byte fp 0
    then some fingerprint_invalid
    else none

unfoldable pub moved : Peer → Text → Bool
unfolding normalize_peer_address
moved p seen = not (normalize_peer_address p.address =t normalize_peer_address seen)

unfoldable pub confirmed : ℕ → Text → Peer → Peer
unfolding moved
confirmed now seen p =
    if moved p seen
    then record p { address = seen; last_seen = now; last_address_confirmed = now }
    else record p { last_address_confirmed = now }

abbrev pub is_none : Check → Bool
is_none none = true
is_none (some e) = false

-- Whether the entry that a mutation finds has another address than the observed one.
abbrev pub moved_in : Text → Text → Outcome Peers → Bool
moved_in fp seen (err e) = false
moved_in fp seen (ok m) = elim (lookup fp m) [ none ↦ false | some p ↦ moved p seen ]

abbrev pub moved_at : Io → Text → Text → PeerStore → Bool
moved_at io fp seen s = moved_in fp seen (load_peers_map io s).0

unfoldable pub set_alias : Io → Text → Text → PeerStore → Check × PeerStore
unfolding checked_mutate
set_alias io fingerprint alias s =
    let a = trim_space alias in
    checked_mutate (validate_peer_label a) io
      (at_peer (key_of fingerprint) (λ p. record p { alias = a })) s

unfoldable pub only_default : Text → Peers → Peers
only_default fp [] = []
only_default fp ((k, p) ∷ m) = (k, record p { is_default = k =t fp }) ∷ only_default fp m

unfoldable pub defaulted : Text → Peers → Outcome Peers
unfolding only_default
defaulted fp m = elim (lookup fp m) [ none ↦ err peer_not_found | some p ↦ ok (only_default fp m) ]

unfoldable pub set_default : Io → Text → PeerStore → Check × PeerStore
unfolding mutate defaulted
set_default io fingerprint s = mutate io (defaulted (key_of fingerprint)) s

module _ (is_ip : Text → Bool) (cert_fingerprint : Text → Option Text) where
  abbrev validate_cert : Text → Text → Check
  validate_cert cert fp =
      if is_empty cert
      then none
      else if ltb (64 * 1024) (length cert)
      then some cert_too_large
      else elim (cert_fingerprint cert) [
        | none ↦ some cert_invalid
        | some claimed ↦ if equal_fold claimed fp then none else some cert_mismatch
      ]

  unfoldable pub validate_peer : Peer → Check
  validate_peer p =
      validate_fingerprint p.fingerprint
      then_check validate_peer_label p.name
      then_check validate_peer_label p.alias
      then_check validate_cert p.cert_pem p.fingerprint
      then_check (if is_empty (trim_space p.address)
          then none
          else validate_peer_address is_ip p.address)

  unfoldable pub add_peer : Io → ℕ → Peer → PeerStore → Check × PeerStore
  unfolding checked_mutate
  add_peer io now p s =
      let p' : Peer = record p { fingerprint = key_of p.fingerprint } in
      checked_mutate (validate_peer p') io (with_peer now p') s

module _ (is_ip : Text → Bool) where
  unfoldable pub update_peer_address : Io → ℕ → Text → Text → PeerStore → Check × PeerStore
  unfolding checked_mutate
  update_peer_address io now fingerprint address s =
      checked_mutate
        (if is_empty (trim_space address) then none else validate_peer_address is_ip address) io
        (at_peer (key_of fingerprint) (addressed now address)) s

  -- ConfirmPeerAddress. An empty observation changes nothing; the first component of the result is
  -- whether the address moved.
  unfoldable pub confirm_peer_address :
      Io → ℕ → Text → Text → PeerStore → (Bool × Check) × PeerStore
  unfolding checked_mutate
  confirm_peer_address io now fingerprint observed s =
      let seen = trim_space observed in
      let fp = key_of fingerprint in
      let (e, s') =
        checked_mutate (validate_peer_address is_ip seen) io (at_peer fp (confirmed now seen)) s in
      if is_empty seen then ((false, none), s) else ((moved_at io fp seen s && is_none e, e), s')
