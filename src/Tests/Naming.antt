-- ===== src/Tests/Naming.antt =====
-- Services of a forward that listens on two addresses.
use flux_panel_plus.Prelude.{◌≡◌, ◌∷◌, ◌++◌}
use flux_panel_plus.Prelude.Text.{Text, codes, split, decimal}
use flux_panel_plus.Model.{Tunnel}
use flux_panel_plus.Gost.Names.{service_name}
use flux_panel_plus.Flow.Limits.{split-service_name}
use flux_panel_plus.Tests.Rows.{tunnel}

abbrev two : Text
two = codes "192.0.2.1,192.0.2.2"

abbrev two_addresses : Tunnel
two_addresses = record tunnel { tcp_listen_addr = two }

abbrev name : Text
name = codes "1_7_3"

split-service_name_example :
    split b'_' (service_name 1 7 3 ++ codes "_tcp")
    ≡ decimal 1 ∷ decimal 7 ∷ decimal 3 ∷ split b'_' (codes "tcp")
split-service_name_example = split-service_name 1 7 3 (codes "tcp")
