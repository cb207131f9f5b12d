-- ===== src/Pairing/Address.antt =====
-- internal/pairing/store.go: what a label, an address, a host and a port of a peer may be, and the
-- one form of an address that comparisons use. An error is named for its message.
pub mod Normal
use tantu.Prelude.{
  ℕ, ◌^◌, ℤ, pos, negsuc, Bool, true, false, not, ◌&&◌, ◌||◌, Option, none, some, List, [], ◌∷◌,
  ltb, leb, ◌==◌, if◌then◌else◌, length,
}
use tantu.Text.{Text, codes, is_empty, is_control, contains, contains_byte, trim_space}
use tantu.Text.HostPort.{split_host_port, join_host_port, atoi}

pub data PeerError : Type 0 where
  fingerprint_empty fingerprint_invalid label_too_long label_control : PeerError
  cert_too_large cert_invalid cert_mismatch : PeerError
  address_invalid address_control address_needs_port host_invalid port_invalid : PeerError
  lock_failed load_failed save_failed restore_failed active_unreadable active_irregular : PeerError
  active_undecodable active_not_removed peer_not_found : PeerError

abbrev pub Check : Type 0
Check = Option PeerError

-- The first error of two checks in a row.
infixr 30 ◌then_check◌
abbrev pub ◌then_check◌ : Check → Check → Check
none then_check c = c
some e then_check c = some e

-- 9877
abbrev pub default_lan_port : Text
default_lan_port = codes "9877"

unfoldable pub normalize_peer_address : Text → Text
normalize_peer_address addr =
    let a = trim_space addr in
    if is_empty a
    then a
    else elim (split_host_port a) [ some _ ↦ a | none ↦ join_host_port a default_lan_port ]

-- `unicode.IsControl` of a rune of the text: below U+0020, U+007F, or U+0080 .. U+009F, whose first
-- byte is 0xC2.
unfoldable pub has_control_rune : Text → Bool
unfolding is_control
has_control_rune [] = false
has_control_rune (a ∷ []) = is_control a
has_control_rune (a ∷ b ∷ s) =
    is_control a || (a == 0xc2) && leb 0x80 b && leb b 0x9f || has_control_rune (b ∷ s)

unfoldable pub validate_peer_label : Text → Check
unfolding has_control_rune
validate_peer_label label =
    if ltb 256 (length label)
    then some label_too_long
    else if has_control_rune label
    then some label_control
    else none

-- `strings.ContainsAny(host, " \t/@")`
abbrev odd_host : Text → Bool
odd_host h =
    contains_byte h b' ' || contains_byte h 9 || contains_byte h b'/' || contains_byte h b'@'

unfoldable pub validate_peer_host : Text → Check
validate_peer_host host =
    let h = trim_space host in
    if is_empty h
    then some address_needs_port
    else if odd_host h || contains h (codes "://")
    then some host_invalid
    else none

abbrev in_port_range : Option ℤ → Bool
in_port_range (some (pos n)) = leb 1 n && leb n 65535
in_port_range _ = false

unfoldable pub validate_peer_port : Text → Check
validate_peer_port port = if in_port_range (atoi (trim_space port)) then none else some port_invalid

-- `net.ParseIP(addr) != nil` is a parameter.
module _ (is_ip : Text → Bool) where
  unfoldable pub validate_peer_address : Text → Check
  unfolding has_control_rune validate_peer_host validate_peer_port
  validate_peer_address addr =
      let a = trim_space addr in
      if is_empty a || ltb 256 (length a)
      then some address_invalid
      else if has_control_rune a
      then some address_control
      else elim (split_host_port a) [
        | some (host, port) ↦ validate_peer_host host then_check validate_peer_port port
        | none ↦
            if is_ip a
            then none
            else if contains_byte a b':'
            then some address_needs_port
            else validate_peer_host a
      ]
