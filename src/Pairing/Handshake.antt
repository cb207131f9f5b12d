-- ===== src/Pairing/Handshake.antt =====
-- internal/pairing/handshake.go: the exchange that pairs two machines over a connection, on both sides.
-- A frame is what it decodes to. Inputs are what the connection answers, the identity of this machine,
-- the nonce, the clock, and what the user says of the code: nothing where the time is up first.
pub mod Trust
pub mod Agreed
pub mod Tests
use tantu.Prelude.{
  ℕ, zero, suc, ◌+◌, ◌*◌, ◌/◌, ◌%◌, ℤ, pos, negsuc, Bool, true, false, not, ◌&&◌, ◌||◌, Option,
  none, some, List, [], ◌∷◌, ◌++◌, ltb, leb, ◌==◌, if◌then◌else◌, length, ◌⊎◌, inl, inr, map,
}
use tantu.Text.{Text, codes, is_empty, equal_fold, to_upper, join, ◌=t◌}
use tantu.Text.HostPort.{split_host_port, join_host_port}
use tantu.Pairing.Address.{PeerError, Check, has_control_rune, default_lan_port}
use tantu.Pairing.Store.{Peer, Io, PeerStore}
use tantu.Pairing.Store.Edits.{add_peer}
use tantu.Pairing.Resolve.{list_peers, first_where}
use tantu.Pairing.Transcript.{transcript_sas}

pub record Hello : Type 0 where
  pub cert_pem : Text
  pub name : Text
  pub listen_port : ℤ
  pub nonce : Text

-- A payload of none does not decode.
pub data Frame : Type 0 where
  hello : Option Hello → Frame
  decision : Option Bool → Frame
  other : Frame

pub data PairError : Type 0 where
  not_received unexpected_type undecodable hello_invalid cert_unreadable cert_foreign : PairError
  not_sent not_confirmed : PairError
  not_saved : PeerError → PairError

-- 64 KiB
abbrev pub max_pair_message_size : ℕ
max_pair_message_size = 64 * 1024

abbrev is_listen_port : ℤ → Bool
is_listen_port (pos n) = leb n 65535
is_listen_port (negsuc n) = false

unfoldable pub is_valid_hello : Hello → Bool
is_valid_hello h =
    not (is_empty h.cert_pem)
    && leb (length h.cert_pem) max_pair_message_size
    && leb (length h.name) 256
    && not (has_control_rune h.name)
    && is_listen_port h.listen_port

-- A machine in one exchange. The transport fingerprint is empty where the connection has none.
pub record Side : Type 0 where
  pub fingerprint : Text
  pub own : Hello
  pub transport : Text
  pub remote : Option Text
  pub confirms : List ℕ → Option Bool
  pub hello_sent : Bool
  pub decision_sent : Bool

pub record PairResult : Type 0 where
  pub peer_fingerprint : Text
  pub code : List ℕ
  pub accepted : Bool

pub data Pairing : Type 0 where
  aborted : PairError → Pairing
  paired : PairResult → Pairing

-- The decimal digits of a port, of which there are at most five.
unfoldable pub decimal_digits : ℕ → ℕ → Text
decimal_digits zero n = []
decimal_digits (suc k) n =
    let high = decimal_digits k (n / 10) in
    if ltb n 10 then (n + b'0') ∷ [] else high ++ ((n % 10 + b'0') ∷ [])

abbrev port_text : ℤ → Text
port_text (negsuc n) = default_lan_port
port_text (pos n) = if (n == 0) || ltb 65535 n then default_lan_port else decimal_digits 5 n

abbrev remote_host : Text → Text
remote_host addr = elim (split_host_port addr) [
  | none ↦ addr
  | some (host, port) ↦ if is_empty host then addr else host
]

unfoldable pub address_with_port : Option Text → ℤ → Text
address_with_port none port = join_host_port (codes "127.0.0.1") default_lan_port
address_with_port (some addr) port = join_host_port (remote_host addr) (port_text port)

-- verifyPairTransportIdentity
abbrev pub fits_transport : Side → Text → Bool
fits_transport x fp = is_empty x.transport || equal_fold x.transport fp

-- The code as the users see it, from the list of words
abbrev rendered : (ℕ → Text) → List ℕ → Text
rendered word code = to_upper (join (map word code) b'-')

module _ (cert_fingerprint : Text → Option Text) where
  -- The hello of the peer with the fingerprint of its certificate, once every check has passed.
  abbrev pub checked_hello : Side → Hello → Option Text → PairError ⊎ (Hello × Text)
  checked_hello x h none = inl cert_unreadable
  checked_hello x h (some fp) = if fits_transport x fp then inr (h, fp) else inl cert_foreign

  unfoldable pub peer_of_frame : Side → Option Frame → PairError ⊎ (Hello × Text)
  unfolding is_valid_hello
  peer_of_frame x none = inl not_received
  peer_of_frame x (some other) = inl unexpected_type
  peer_of_frame x (some (decision d)) = inl unexpected_type
  peer_of_frame x (some (hello none)) = inl undecodable
  peer_of_frame x (some (hello (some h))) =
      if is_valid_hello h
      then checked_hello x h (cert_fingerprint h.cert_pem)
      else inl hello_invalid

module _ (digest : Text → Text) where
  unfoldable pub code_of : Side → Hello → Text → List ℕ
  unfolding transcript_sas
  code_of x h fp = transcript_sas digest x.fingerprint fp x.own.nonce h.nonce

module _ (digest : Text → Text) (word : ℕ → Text) where
  unfoldable pub peer_entry : Side → Hello → Text → Peer
  unfolding address_with_port code_of
  peer_entry x h fp = record {
    fingerprint = fp;
    name =
        if is_empty h.name then codes "peer-" ++ rendered word (code_of digest x h fp) else h.name;
    alias = [];
    is_default = false;
    address = address_with_port x.remote h.listen_port;
    cert_pem = h.cert_pem;
    first_seen = 0;
    last_seen = 0;
    last_address_confirmed = 0;
  }

abbrev pub result_of : PairResult → Check × PeerStore → Pairing × PeerStore
result_of r (none, s) = (paired r, s)
result_of r (some e, s) = (aborted (not_saved e), s)

module _ (digest : Text → Text) (word : ℕ → Text) (is_ip : Text → Bool)
    (cert_fingerprint : Text → Option Text) where
  -- The end of the exchange, from the decision of the peer on.
  unfoldable pub conclude :
      Io → ℕ → Side → Hello → Text → Bool → Option Frame → PeerStore → Pairing × PeerStore
  unfolding peer_entry add_peer code_of
  conclude io now x h fp mine none s = (aborted not_received, s)
  conclude io now x h fp mine (some other) s = (aborted unexpected_type, s)
  conclude io now x h fp mine (some (hello g)) s = (aborted unexpected_type, s)
  conclude io now x h fp mine (some (decision none)) s = (aborted undecodable, s)
  conclude io now x h fp mine (some (decision (some theirs))) s =
      let result : PairResult = record {
        peer_fingerprint = fp;
        code = code_of digest x h fp;
        accepted = mine && theirs;
      } in
      if mine && theirs
      then result_of result
          (add_peer is_ip cert_fingerprint io now (peer_entry digest word x h fp) s)
      else (paired result, s)

  abbrev pub on_answer :
      Io → ℕ → Side → Hello → Text → Option Bool → Option Frame → PeerStore → Pairing × PeerStore
  on_answer io now x h fp none f s = (aborted not_confirmed, s)
  on_answer io now x h fp (some mine) f s =
      if x.decision_sent then conclude io now x h fp mine f s else (aborted not_sent, s)

  abbrev pub decide : Io → ℕ → Side → Hello → Text → Option Frame → PeerStore → Pairing × PeerStore
  decide io now x h fp f s = on_answer io now x h fp (x.confirms (code_of digest x h fp)) f s

  abbrev pub after_hello :
      Io → ℕ → Side → PairError ⊎ (Hello × Text) → Option Frame → PeerStore → Pairing × PeerStore
  after_hello io now x (inl e) f s = (aborted e, s)
  after_hello io now x (inr (h, fp)) f s = decide io now x h fp f s

  -- This side answers the hello with its own.
  abbrev pub answer_hello :
      Io → ℕ → Side → PairError ⊎ (Hello × Text) → Option Frame → PeerStore → Pairing × PeerStore
  answer_hello io now x (inl e) f s = (aborted e, s)
  answer_hello io now x (inr (h, fp)) f s =
      if x.hello_sent then decide io now x h fp f s else (aborted not_sent, s)

  -- HandleInboundPairing: the hello of the peer comes first.
  unfoldable pub handle_inbound_pairing :
      Io → ℕ → Side → Option Frame → Option Frame → PeerStore → Pairing × PeerStore
  unfolding peer_of_frame conclude code_of
  handle_inbound_pairing io now x first second s =
      answer_hello io now x (peer_of_frame cert_fingerprint x first) second s

  -- PairResponderInBand: the hello of this side goes out first.
  unfoldable pub pair_responder_in_band :
      Io → ℕ → Side → Option Frame → Option Frame → PeerStore → Pairing × PeerStore
  unfolding peer_of_frame conclude code_of
  pair_responder_in_band io now x first second s =
      if x.hello_sent
      then after_hello io now x (peer_of_frame cert_fingerprint x first) second s
      else (aborted not_sent, s)

-- What dialInBandPairing does behind an exchange with a legacy listener, whatever its verdict: a peer
-- of the store with the fingerprint gets the address that was dialled.
unfoldable pub readdress :
    (Text → Bool) → (Text → Option Text) → Io → ℕ → Text → PairResult → PeerStore → PeerStore
unfolding list_peers first_where add_peer
readdress is_ip cert_fingerprint io now dialled r s =
    let (ps, s') = list_peers io s in
    elim (first_where (λ p. p.fingerprint =t r.peer_fingerprint) ps) [
      | none ↦ s'
      | some p ↦ (add_peer is_ip cert_fingerprint io now (record p { address = dialled }) s').1
    ]
