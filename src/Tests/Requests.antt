-- ===== src/Tests/Requests.antt =====
-- src/hysteria2.rs, handle_tcp_header: the theorem at a concrete input.
use rust_proxy.Prelude.{none, List, [], ◌∷◌, arith, Arrival, not_yet, arrives, ok}
use rust_proxy.Reader.{StreamReader}
use rust_proxy.Reader.Waiting.{unread}
use rust_proxy.Hysteria2.Header.{handle_tcp_header}
use rust_proxy.Hysteria2.Header.Numbers.{Done}
use rust_proxy.Hysteria2.Header.Requests.{Request, handle_tcp_header-Request}

abbrev reader : StreamReader
reader = record {
  buf = 68 ∷ 1 ∷ 10 ∷ 56 ∷ 0 ∷ 0 ∷ 0 ∷ 0 ∷ 0 ∷ 0 ∷ 0 ∷ 0 ∷ [];
  start_offset = 0;
  end_offset = 4;
}

-- The request 0x401 for 8.8.8.8:53 with a byte of padding, and a byte behind it.
abbrev arrivals : List Arrival
arrivals =
    arrives (46 ∷ 56 ∷ 46 ∷ 56 ∷ [])
    ∷ not_yet
    ∷ arrives (46 ∷ 56 ∷ 58 ∷ 53 ∷ 51 ∷ 1 ∷ 0 ∷ 42 ∷ [])
    ∷ []

handle_tcp_header-Request_example :
    Done
      (Request (λ s. none) (unread reader arrivals))
      (handle_tcp_header (λ s. none) (λ bs. ok tt) (7 ∷ []) reader arrivals)
handle_tcp_header-Request_example =
    handle_tcp_header-Request (λ s. none) (λ bs. ok tt) (7 ∷ []) reader arrivals (λ h. cc)
      (record { ordered = omega arith; inside = omega arith })
