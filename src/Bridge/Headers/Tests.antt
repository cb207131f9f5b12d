-- ===== src/Bridge/Headers/Tests.antt =====
-- internal/bridge/session.go: the filter on the headers of a peer that means harm.
use tantu.Prelude.{◌≡◌, refl, [], ◌∷◌}
use tantu.Text.{codes, ◌=t◌, to_lower, to_upper, trim_space, text_ltb}
use tantu.Text.Assoc.{Every, lookup, put}
use tantu.Bridge.Headers.{
  Headers, allowed_callback_relay_header, canonical_relay_header, canonical_relay_header_map,
  canonical_header_key, filter_callback_relay_headers,
}
use tantu.Bridge.Headers.Delivered.{IsDelivered, filter_callback_relay_headers-IsDelivered}

abbrev sent : Headers
sent =
    (codes "content-type", codes "a/b")
    ∷ (codes "Content-Type", codes "c/d")
    ∷ (codes "Cookie", codes "id=1")
    ∷ (codes " accept ", codes "text/html")
    ∷ []

filter_callback_relay_headers-IsDelivered_example :
    Every (IsDelivered sent) (filter_callback_relay_headers sent)
filter_callback_relay_headers-IsDelivered_example = filter_callback_relay_headers-IsDelivered sent

-- Of two spellings the first in the order of the bytes wins, for the checks and for the delivery.
filtered :
    filter_callback_relay_headers sent
    ≡ (codes "Accept", codes "text/html") ∷ (codes "Content-Type", codes "c/d") ∷ []
unfolding filter_callback_relay_headers allowed_callback_relay_header canonical_relay_header_map
    lookup put ◌=t◌ to_lower to_upper trim_space text_ltb canonical_header_key
filtered = refl

checked : canonical_relay_header sent (codes "content-type") ≡ codes "c/d"
unfolding canonical_relay_header lookup put ◌=t◌ to_lower trim_space text_ltb
checked = refl
