-- ===== src/Core/Examples.antt =====
-- A witness for the services: two that note their calls, the second of which does not start.
use market_proxy.Prelude.{◌≡◌, String, none, some, Option, List, [], ◌∷◌, ◌++◌}
use market_proxy.Prelude.Errors.{Error, msg}
use market_proxy.Core.{Service, Registry, register, start_all, stop_all}
use market_proxy.Core.Order.{register_last, then_start}

abbrev noting : String → Option Error → Service (List String)
noting name e = record { start = λ w. (e, w ++ name ∷ []); stop = λ w. w ++ name ∷ [] }

abbrev one_service : Registry (List String)
one_service = record { services = noting "cache" none ∷ [] }

register_last_example :
    (start_all (register (noting "markets" (some (msg "no configuration"))) one_service) []
      ≡ then_start (noting "markets" (some (msg "no configuration"))) (start_all one_service []))
    × (stop_all (register (noting "markets" (some (msg "no configuration"))) one_service) []
        ≡ stop_all one_service ("markets" ∷ []))
register_last_example =
    register_last one_service (noting "markets" (some (msg "no configuration"))) []
