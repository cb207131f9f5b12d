-- ===== src/Pairing/Address/Normal.antt =====
-- internal/pairing/store.go: the normal form of an address that the store accepts has a port.
use tantu.Prelude.{◌≡◌, refl, Bool, false, none, some, if_cases, arith}
use tantu.Text.{Text, contains_byte, trim_space, is_empty}
use tantu.Text.HostPort.{split_host_port, split_host_port-join_host_port, has_bracket}
use tantu.Pairing.Address.{normalize_peer_address, validate_peer_address, default_lan_port}

-- An address that the store accepts and that names no port gets the default port, with its host as
-- it stands, where it has no bracket; what `net.ParseIP` takes has none.
pub split-normalize :
    (is_ip : Text → Bool) (addr : Text)
    → validate_peer_address is_ip addr ≡ none
    → split_host_port (trim_space addr) ≡ none
    → has_bracket (trim_space addr) ≡ false
    → split_host_port (normalize_peer_address addr) ≡ some (trim_space addr, default_lan_port)
unfolding normalize_peer_address validate_peer_address contains_byte
split-normalize is_ip addr ok bare brackets =
    let joined =
      split_host_port-join_host_port default_lan_port refl refl (trim_space addr) brackets in
    if_cases (λ t. split_host_port t ≡ some (trim_space addr, default_lan_port))
      (is_empty (trim_space addr)) (λ e. absurd (ground (arith, e, ok))) (λ _. rw bare joined)
