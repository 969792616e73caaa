-- ===== src/Core.antt =====
-- core/service.go: the services of the program, started in order and stopped in the reverse order.
-- A service is a parameter: how its `Start` and its `Stop` change the world, and the error of `Start`.
pub mod Order
mod Examples
use market_proxy.Prelude.{ℕ, zero, suc, Option, none, some, List, [], ◌∷◌, ◌++◌, length}
use market_proxy.Prelude.Errors.{Error}

module _ (W : Type 0) where
  -- `IService`
  pub record Service : Type 0 where
    pub start : W → Option Error × W
    pub stop : W → W

  -- `Registry`
  pub record Registry : Type 0 where
    pub services : List Service

module _ {W : Type 0} where
  unfoldable pub new_registry : Registry W
  new_registry = record { services = [] }

  unfoldable pub register : Service W → Registry W → Registry W
  register service sr = record { services = sr.services ++ service ∷ [] }

  unfoldable pub start_each : List (Service W) → W → Option Error × W
  start_each [] w = (none, w)
  start_each (service ∷ rest) w =
      let (failed, w') = service.start w in
      elim failed [ some e ↦ (some e, w') | none ↦ start_each rest w' ]

  unfoldable pub start_all : Registry W → W → Option Error × W
  unfolding start_each
  start_all sr w = start_each sr.services w

  abbrev pub nth : ℕ → List (Service W) → Option (Service W)
  nth n [] = none
  nth zero (s ∷ ss) = some s
  nth (suc n) (s ∷ ss) = nth n ss

  abbrev pub stop_one : Option (Service W) → W → W
  stop_one none w = w
  stop_one (some s) w = s.stop w

  -- The loop down to index 0; `n` is the index above.
  unfoldable pub stop_from : ℕ → List (Service W) → W → W
  stop_from zero services w = w
  stop_from (suc i) services w = stop_from i services (stop_one (nth i services) w)

  unfoldable pub stop_all : Registry W → W → W
  unfolding stop_from
  stop_all sr w = stop_from (length sr.services) sr.services w
