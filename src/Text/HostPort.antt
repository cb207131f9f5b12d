-- ===== src/Text/HostPort.antt =====
-- `net.SplitHostPort`, `net.JoinHostPort` and `strconv.Atoi` on bytes.
use tantu.Prelude.{
  ℕ, zero, suc, ◌+◌, ◌-◌, ◌*◌, ◌^◌, ◌≡◌, ℤ, pos, negsuc, Bool, false, not, ◌&&◌, ◌||◌, Option, none,
  some, [], ◌∷◌, ◌++◌, arith, ltb, leb, ◌==◌, if◌then◌else◌, if_cases,
}
use tantu.Text.{Text, is_empty, contains_byte}

-- The parts before and after the first `c`.
unfoldable pub cut : Text → ℕ → Option (Text × Text)
cut [] c = none
cut (a ∷ s) c =
    let rest = cut s c in
    if a == c then some ([], s) else elim rest [ none ↦ none | some (l, r) ↦ some (a ∷ l, r) ]

abbrev pub has_bracket : Text → Bool
has_bracket s = contains_byte s b'[' || contains_byte s b']'

-- Behind the `]` of a bracketed host stands one `:`, and a port with neither.
unfoldable port_behind : Text → Text → Option (Text × Text)
unfolding contains_byte
port_behind host [] = none
port_behind host (c ∷ port) =
    if (c == b':')
      && not (contains_byte port b':')
      && not (contains_byte host b'[')
      && not (has_bracket port)
    then some (host, port)
    else none

-- Without brackets there is just one `:`.
unfoldable pub split_host_port : Text → Option (Text × Text)
unfolding cut port_behind contains_byte
split_host_port [] = none
split_host_port (c ∷ s) =
    if c == b'['
    then elim (cut s b']') [ none ↦ none | some (host, after) ↦ port_behind host after ]
    else elim (cut (c ∷ s) b':') [
      | none ↦ none
      | some (host, port) ↦
          if contains_byte port b':' || has_bracket host || has_bracket port
          then none
          else some (host, port)
    ]

unfoldable pub join_host_port : Text → Text → Text
unfolding contains_byte
join_host_port host port =
    if contains_byte host b':' then b'[' ∷ (host ++ (b']' ∷ b':' ∷ port)) else host ++ (b':' ∷ port)

is_digit : ℕ → Bool
is_digit c = leb b'0' c && leb c b'9'

-- The digits of a number, most significant first.
unfoldable pub decimal : Text → ℕ → Option ℕ
unfolding is_digit
decimal [] n = some n
decimal (c ∷ s) n = let rest = decimal s (n * 10 + (c - b'0')) in if is_digit c then rest else none

abbrev below : ℕ → Option ℕ → Option ℕ
below bound none = none
below bound (some n) = if ltb n bound then some n else none

abbrev digits : Text → Option ℕ
digits s = if is_empty s then none else decimal s 0

unfoldable pub atoi : Text → Option ℤ
unfolding decimal
atoi [] = none
atoi (c ∷ s) =
    if c == b'-'
    then elim (below (2 ^ 63 + 1) (digits s)) [
      | none ↦ none
      | some zero ↦ some (pos 0)
      | some (suc n) ↦ some (negsuc n)
    ]
    else elim (below (2 ^ 63) (digits (if c == b'+' then s else c ∷ s))) [
      | none ↦ none
      | some n ↦ some (pos n)
    ]

cut-append :
    (s rest : Text) (c : ℕ) → contains_byte s c ≡ false → cut (s ++ (c ∷ rest)) c ≡ some (s, rest)
unfolding cut contains_byte
cut-append [] rest c h = ground arith
cut-append (a ∷ s) rest c h = ground (arith, cut-append s rest c)

module _ (port : Text) (p : has_bracket port ≡ false) (one : contains_byte port b':' ≡ false) where
  split_bracketed :
      (host : Text)
      → has_bracket host ≡ false
      → split_host_port (b'[' ∷ (host ++ (b']' ∷ b':' ∷ port))) ≡ some (host, port)
  unfolding split_host_port
  split_bracketed host h =
      rw (cut-append host (b':' ∷ port) b']' (ground (arith, h))) (ground (arith, h, p, one))

  split_plain :
      (host : Text)
      → has_bracket host ≡ false
      → contains_byte host b':' ≡ false
      → split_host_port (host ++ (b':' ∷ port)) ≡ some (host, port)
  unfolding split_host_port
  split_plain [] h n = rw (cut-append [] port b':' n) (ground (arith, h, p, one))
  split_plain (a ∷ s) h n =
      let first : (a == b'[') ≡ false = unfold contains_byte in ground (arith, h) in
      rw (first, cut-append (a ∷ s) port b':' n) (ground (arith, h, p, one))

  -- A host and a port without brackets, the port without a colon, come back from the address
  -- that joins them.
  pub split_host_port-join_host_port :
      (host : Text)
      → has_bracket host ≡ false
      → split_host_port (join_host_port host port) ≡ some (host, port)
  unfolding join_host_port
  split_host_port-join_host_port host h =
      if_cases (λ t. split_host_port t ≡ some (host, port)) (contains_byte host b':')
        (λ _. split_bracketed host h) (λ n. split_plain host h n)
