-- ===== src/SelfTest.antt =====
-- ai-firewall/src/selftest.rs: the names of the tests, and the lists of the ports test. What the
-- tests measure on the running system is not modelled.
use ai_firewall.Prelude.{Bool, ◌||◌, List, [], ◌∷◌, any}
use ai_firewall.Text.{Text, codes, text_eq}

abbrev pub tests : List (Text × Text)
tests =
    (codes "health", codes "daemon alive, status fresh, filter attached, events lost")
    ∷ (codes "ports", codes "open ports versus what is listening on this machine")
    ∷ (
      codes "detector",
      codes "simulated scans and floods against the detector with your thresholds",
    )
    ∷ (codes "traffic", codes "packets passed and dropped per second, sampled from the status file")
    ∷ (codes "services", codes "local services on open ports answer on 127.0.0.1")
    ∷ []

unfoldable pub is_test : Text → Bool
is_test name = text_eq name (codes "all") || any (λ t. text_eq t.0 name) tests
