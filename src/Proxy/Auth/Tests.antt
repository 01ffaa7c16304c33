-- ===== src/Proxy/Auth/Tests.antt =====
-- The address rules at one block.
use model_id.Base.{◌≡◌, ◌↔◌, ◌/◌, ◌^◌, ◌-◌, true, arith}
use model_id.Proxy.Auth.{ip_matches}
use model_id.Proxy.Auth.Cidr.{Ipv4, value, dotted, block, ip_matches_cidr}

abbrev inside : Ipv4
inside = record { a = 192; b = 168; c = 5; d = 77 }

abbrev base : Ipv4
base = record { a = 192; b = 168; c = 0; d = 0 }

ip_matches_cidr_example :
    (ip_matches (dotted inside) (block base 20) ≡ true)
    ↔ (value inside / 2 ^ (32 - 20) ≡ value base / 2 ^ (32 - 20))
ip_matches_cidr_example = ip_matches_cidr inside base 20 (omega arith) (omega arith) (omega arith)
