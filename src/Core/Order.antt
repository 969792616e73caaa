-- ===== src/Core/Order.antt =====
-- The order in which core/service.go starts and stops.
use market_proxy.Prelude.{
  ℕ, zero, suc, ◌≡◌, ◌≤◌, ◌<◌, refl, ap, ◌∙◌, Option, none, some, List, [], ◌∷◌, ◌++◌, length,
  length-append, arith,
}
use market_proxy.Prelude.Errors.{Error}
use market_proxy.Core.{
  Service, Registry, register, start_each, start_all, nth, stop_one, stop_from, stop_all,
}

module _ {W : Type 0} where
  -- What follows a start: the next one if it succeeded.
  abbrev pub then_start : Service W → Option Error × W → Option Error × W
  then_start service (some e, w) = (some e, w)
  then_start service (none, w) = service.start w

  start_last :
      (services : List (Service W)) (service : Service W) (w : W)
      → start_each (services ++ service ∷ []) w ≡ then_start service (start_each services w)
  unfolding start_each
  start_last [] service w = alone (service.start w).0
    where
      alone :
          (o : Option Error)
          → (elim o as (λ x. Option Error × W) [
            | some e ↦ (some e, (service.start w).1)
            | none ↦ (none, (service.start w).1)
          ])
            ≡ (o, (service.start w).1)
      alone (some e) = refl
      alone none = refl
  start_last (s ∷ services) service w =
      behind (s.start w).0 (start_last services service (s.start w).1)
    where
      behind :
          (o : Option Error)
          → start_each (services ++ service ∷ []) (s.start w).1
            ≡ then_start service (start_each services (s.start w).1)
          → (elim o as (λ x. Option Error × W) [
            | some e ↦ (some e, (s.start w).1)
            | none ↦ start_each (services ++ service ∷ []) (s.start w).1
          ])
            ≡ then_start service (elim o as (λ x. Option Error × W) [
              | some e ↦ (some e, (s.start w).1)
              | none ↦ start_each services (s.start w).1
            ])
      behind (some e) ih = refl
      behind none ih = ih

  nth-append : (i : ℕ) (xs ys : List (Service W)) → i < length xs → nth i (xs ++ ys) ≡ nth i xs
  nth-append i [] ys h = absurd (omega arith)
  nth-append zero (x ∷ xs) ys h = refl
  nth-append (suc i) (x ∷ xs) ys h = nth-append i xs ys (omega arith)

  nth_last : (xs : List (Service W)) (s : Service W) → nth (length xs) (xs ++ s ∷ []) ≡ some s
  nth_last [] s = refl
  nth_last (x ∷ xs) s = nth_last xs s

  stop_front :
      (n : ℕ) (xs ys : List (Service W)) (w : W)
      → n ≤ length xs
      → stop_from n (xs ++ ys) w ≡ stop_from n xs w
  unfolding stop_from
  stop_front zero xs ys w h = refl
  stop_front (suc n) xs ys w h =
      ap (λ o. stop_from n (xs ++ ys) (stop_one o w)) (nth-append n xs ys (omega arith))
      ∙ stop_front n xs ys (stop_one (nth n xs) w) (omega arith)

  stop_last :
      (services : List (Service W)) (service : Service W) (w : W)
      → stop_from (length (services ++ service ∷ [])) (services ++ service ∷ []) w
        ≡ stop_from (length services) services (service.stop w)
  unfolding stop_from
  stop_last services service w =
      let all = services ++ service ∷ [] in
      ap (λ n. stop_from n all w) (one_more services)
      ∙ ap (λ o. stop_from (length services) all (stop_one o w)) (nth_last services service)
      ∙ stop_front (length services) services (service ∷ []) (service.stop w) (omega arith)
    where
      one_more : (xs : List (Service W)) → length (xs ++ service ∷ []) ≡ suc (length xs)
      one_more xs = omega (arith, length-append xs (service ∷ []))

  -- Registering a service puts it behind the others: it starts last, if all others have started
  -- without an error, and stops first.
  pub register_last :
      (sr : Registry W) (service : Service W) (w : W)
      → (start_all (register service sr) w ≡ then_start service (start_all sr w))
        × (stop_all (register service sr) w ≡ stop_all sr (service.stop w))
  unfolding start_all stop_all register
  register_last sr service w = (start_last sr.services service w, stop_last sr.services service w)
