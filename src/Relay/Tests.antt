-- ===== src/Relay/Tests.antt =====
-- A relay with two ports, one of them taken.
use nextendo_demonware.Common.{[], ◌∷◌, none, true, arith}
use nextendo_demonware.Relay.Address.{Endpoint}
use nextendo_demonware.Relay.Table.{Table, pair_for, reap}
use nextendo_demonware.Relay.Ports.{PortsOk, pair_for-reap-PortsOk}

abbrev peer : Endpoint
peer = record { ip = 10 ∷ 0 ∷ 0 ∷ 1 ∷ []; port = 5000 }

abbrev two_ports : Table
two_ports = record {
  pairs =
      record { host_pid = 1; joiner_pid = 2; port = 40; host = peer; joiner = none; last = 0 } ∷ [];
  low = 40;
  high = 41;
  next = 40;
  ip = 10 ∷ 0 ∷ 0 ∷ 9 ∷ [];
}

two_ports-PortsOk : PortsOk two_ports
two_ports-PortsOk = record {
  apart = (tt, tt);
  ranged = ((omega arith, omega arith), tt);
  next_ranged = (omega arith, omega arith);
}

pair_for-reap-PortsOk_example : PortsOk (pair_for (λ port. true) 3 4 peer 7 (reap 200 two_ports)).0
pair_for-reap-PortsOk_example =
    pair_for-reap-PortsOk (λ port. true) 3 4 7 200 peer two_ports two_ports-PortsOk
