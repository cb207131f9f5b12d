-- ===== src/Pairing/Resolve.antt =====
-- internal/pairing/store.go: the list of the peers, and the peer that a query of the user names.
pub mod Sound
pub mod Unpaired
pub mod Tests
use tantu.Prelude.{
  ℕ, suc, ◌+◌, Bool, true, false, not, ◌&&◌, ◌||◌, Option, none, some, List, [], ◌∷◌, ◌++◌, ltb,
  leb, ◌==◌, if◌then◌else◌, length, take,
}
use tantu.Text.{Text, codes, is_empty, ◌=t◌, equal_fold, has_prefix, to_lower, trim_space, text_ltb}
use tantu.Text.HostPort.{split_host_port}
use tantu.Pairing.Store.{Peer, Peers, Io, Outcome, ok, err, PeerStore, load_peers_map}

-- SASCode
unfoldable pub sas : Peer → Text
sas p = take 6 p.fingerprint

unfoldable pub display_name : Peer → Text
unfolding sas
display_name p =
    if not (is_empty p.alias)
    then p.alias
    else if not (is_empty p.name)
    then p.name
    else codes "peer-" ++ sas p

abbrev listed_before : Peer → Peer → Bool
listed_before p q =
    if p.fingerprint =t q.fingerprint
    then text_ltb (display_name p) (display_name q)
    else text_ltb p.fingerprint q.fingerprint

unfoldable pub insert_peer : Peer → List Peer → List Peer
insert_peer p [] = p ∷ []
insert_peer p (q ∷ qs) =
    let rest = insert_peer p qs in if listed_before p q then p ∷ q ∷ qs else q ∷ rest

unfoldable pub sorted_peers : Peers → List Peer
unfolding insert_peer
sorted_peers [] = []
sorted_peers ((k, p) ∷ m) = insert_peer p (sorted_peers m)

unfoldable pub list_peers : Io → PeerStore → List Peer × PeerStore
unfolding load_peers_map sorted_peers
list_peers io s =
    let (loaded, s') = load_peers_map io s in
    (elim loaded [ err e ↦ [] | ok m ↦ sorted_peers m ], s')

-- The host of an address: all of it where it has no port.
abbrev host_of : Text → Text
host_of a = elim (split_host_port a) [ none ↦ a | some (host, port) ↦ host ]

unfoldable pub any_at_host : Text → Peers → Bool
any_at_host host [] = false
any_at_host host ((k, p) ∷ m) = equal_fold (host_of p.address) host || any_at_host host m

unfoldable pub has_peer_at_address : Io → Text → PeerStore → Bool × PeerStore
unfolding load_peers_map any_at_host
has_peer_at_address io addr s =
    let a = trim_space addr in
    let (loaded, s') = load_peers_map io s in
    if is_empty a
    then (false, s)
    else (elim loaded [ err e ↦ false | ok m ↦ any_at_host (host_of a) m ], s')

unfoldable pub first_where : (Peer → Bool) → List Peer → Option Peer
first_where test [] = none
first_where test (p ∷ ps) = let rest = first_where test ps in if test p then some p else rest

unfoldable pub all_where : (Peer → Bool) → List Peer → List Peer
all_where test [] = []
all_where test (p ∷ ps) = let rest = all_where test ps in if test p then p ∷ rest else rest

pub data Resolved : Type 0 where
  found : Peer → Resolved
  no_peers no_default prefix_ambiguous sas_ambiguous tiers_ambiguous unknown : Resolved

abbrev pub has_fingerprint : Text → Peer → Bool
has_fingerprint q p = equal_fold p.fingerprint q

abbrev pub has_fingerprint_prefix : Text → Peer → Bool
has_fingerprint_prefix q p = leb 6 (length q) && has_prefix (to_lower p.fingerprint) (to_lower q)

abbrev pub has_sas : Text → Peer → Bool
has_sas q p = equal_fold (sas p) q

abbrev pub has_alias : Text → Peer → Bool
has_alias q p = not (is_empty p.alias) && equal_fold p.alias q

abbrev pub has_name : Text → Peer → Bool
has_name q p = not (is_empty p.name) && equal_fold p.name q

abbrev host_matches : Text → Option (Text × Text) → Bool
host_matches q none = false
host_matches q (some (host, port)) = equal_fold host q

abbrev pub has_address : Text → Peer → Bool
has_address q p = equal_fold p.address q || host_matches q (split_host_port p.address)

abbrev pub or_find : Option Peer → Resolved → Resolved
or_find (some p) r = found p
or_find none r = r

-- Tiers 3 to 5: the first peer with the alias, else with the name, else at the address.
unfoldable pub by_label : Text → List Peer → Resolved
unfolding first_where
by_label q ps =
    or_find (first_where (has_alias q) ps)
      (or_find (first_where (has_name q) ps) (or_find (first_where (has_address q) ps) unknown))

-- Tiers 1 and 2, from the peers with the prefix and those with the code
unfoldable pub by_code : List Peer → List Peer → Resolved → Resolved
by_code (p ∷ p' ∷ ps) cs r = prefix_ambiguous
by_code ps (c ∷ c' ∷ cs) r = sas_ambiguous
by_code (p ∷ []) (c ∷ []) r =
    if equal_fold p.fingerprint c.fingerprint then found p else tiers_ambiguous
by_code (p ∷ []) [] r = found p
by_code [] (c ∷ []) r = found c
by_code [] [] r = r

abbrev pub only_peer : List Peer → Resolved
only_peer [] = no_default
only_peer (p ∷ []) = found p
only_peer (p ∷ p' ∷ ps) = no_default

unfoldable pub by_default : List Peer → Resolved
unfolding first_where
by_default ps = or_find (first_where (λ p. p.is_default) ps) (only_peer ps)

-- ResolvePeer on the list of the peers
unfoldable pub resolve_peer : List Peer → Text → Resolved
unfolding by_label by_code by_default first_where all_where
resolve_peer [] query = no_peers
resolve_peer (p ∷ ps) query =
    let q = trim_space query in
    let peers = p ∷ ps in
    if is_empty q
    then by_default peers
    else or_find (first_where (has_fingerprint q) peers) (
        by_code (all_where (has_fingerprint_prefix q) peers) (all_where (has_sas q) peers)
          (by_label q peers))
