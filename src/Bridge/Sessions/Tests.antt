-- ===== src/Bridge/Sessions/Tests.antt =====
-- internal/bridge/session_registry.go: two peers, three sign-ins.
use tantu.Prelude.{◌≡◌, refl, ℕ, pos, true, false, none, some, List, [], ◌∷◌}
use tantu.Text.{Text, codes, trim_space, ◌=t◌, equal_fold, to_lower}
use tantu.Text.Assoc.{lookup, delete}
use tantu.Bridge.Sessions.{
  SessionInfo, ActiveSession, SessionRegistry, ids_where, cancel_on_port, session_belongs_to_peer,
}
use tantu.Bridge.Sessions.Release.{by_id, on_port, release, release_spares}
use tantu.Bridge.Sessions.Bounds.{Step, registers, releases}

abbrev info_of : Text → Text → ℕ → SessionInfo
info_of id peer at = record {
  request_id = id;
  flow_id = [];
  callback_port = pos 8085;
  peer_fingerprint = peer;
  state = codes "waiting_for_browser";
  started_at = at;
  age = 0;
}

abbrev session_of : Text → Text → ℕ → ActiveSession
session_of id peer at = record { info = info_of id peer at; cancel_handle = some at; started = at }

abbrev live : SessionRegistry
live = record {
  sessions =
      (codes "r1", session_of (codes "r1") (codes "AA") 1)
      ∷ (codes "r2", session_of (codes "r2") (codes "BB") 2)
      ∷ (codes "r3", session_of (codes "r3") (codes "aa") 3)
      ∷ [];
  max = 128;
  cancelled = [];
}

others : session_belongs_to_peer (info_of (codes "r2") (codes "BB") 2) (codes "aa") ≡ false
unfolding session_belongs_to_peer trim_space equal_fold to_lower ◌=t◌
others = refl

held : lookup (codes "r2") live.sessions ≡ some (session_of (codes "r2") (codes "BB") 2)
unfolding lookup ◌=t◌
held = refl

release_spares_example :
    lookup (codes "r2") (release (on_port (pos 8085) (codes "r3")) live (codes "aa")).sessions
    ≡ some (session_of (codes "r2") (codes "BB") 2)
release_spares_example =
    release_spares (codes "aa") (codes "r2") (session_of (codes "r2") (codes "BB") 2) others
      (on_port (pos 8085) (codes "r3")) live held

trims :
    ((trim_space (codes "r1") ≡ codes "r1") × (trim_space (codes "r2") ≡ codes "r2"))
    × (trim_space (codes "r3") ≡ codes "r3")
unfolding trim_space
trims = ((refl, refl), refl)

left_over :
    lookup (codes "r3") (cancel_on_port live (pos 8085) (codes "aa") (codes "r3")).0.sessions
    ≡ some (session_of (codes "r3") (codes "aa") 3)
unfolding cancel_on_port lookup ◌=t◌ delete ids_where trim_space session_belongs_to_peer equal_fold
left_over = refl

own : session_belongs_to_peer (info_of (codes "r3") (codes "aa") 3) (codes "aa") ≡ true
unfolding session_belongs_to_peer trim_space equal_fold to_lower ◌=t◌
own = refl

abbrev history : List Step
history =
    registers 1 none (info_of (codes "r1") (codes "AA") 0)
    ∷ registers 2 none (info_of (codes "r2") (codes "BB") 0)
    ∷ releases (by_id (codes "r1")) (codes "aa")
    ∷ []
