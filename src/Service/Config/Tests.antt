-- ===== src/Service/Config/Tests.antt =====
-- Runs of the configuration.
use psuart.Prelude.{ℕ, ◌≡◌, refl, List, [], ◌∷◌, some, none, true}
use psuart.Utils.Serial.{codes}
use psuart.Service.Config.{psuservice_def, handle_all, field, default_config, load_psu_config, Row}
use psuart.Service.Config.Rows.{handle_all_lem, load_psu_config-none}

abbrev rows : List Row
rows = psuservice_def (codes "/tmp/log/psuart.log")

-- the port is set twice
abbrev set_port : List (List ℕ × List ℕ × List ℕ)
set_port =
    (codes "uart", codes "port", codes "COM1")
    ∷ (codes "log", codes "flag", codes "1")
    ∷ (codes "uart", codes "port", codes "COM2")
    ∷ []

handle_all_lem_example :
    field (codes "uart") (codes "port") (handle_all set_port rows) ≡ some (codes "COM2")
unfolding field
handle_all_lem_example = handle_all_lem (codes "uart") (codes "port") set_port rows refl

load_psu_config-none_example : load_psu_config (λ text. 1) true (some set_port) rows none ≡ none
unfolding field
load_psu_config-none_example = load_psu_config-none (λ text. 1) true set_port rows none refl refl

-- the numbers of the defaults, with `atoi` left open
default_port :
    (atoi : List ℕ → ℕ)
    → field (codes "network") (codes "udpport") (default_config rows) ≡ some (codes "5000")
unfolding field default_config
default_port atoi = refl
