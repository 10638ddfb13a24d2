-- ===== src/Tests/Office.antt =====
-- Runs of the model, and the theorems at those inputs: a run of the box office.
use boxoffice.Common.{refl, none, arith, ◌==◌}
use boxoffice.Common.Text.{codes}
use boxoffice.System.{State, Step, Run}
use boxoffice.System.Reachable.{NotOversold, Run-IsSound}
use boxoffice.Inventory.{IsSound}
use boxoffice.Inventory.Counted.{IsCounted}
use boxoffice.Tests.{gala, standard, shop, shop-IsSound}
use boxoffice.Tests.Holds.{ga_buyer, set_ga_hold_run, card, token_of, ga_sale}
use boxoffice.Tests.Orders.{digest}
use boxoffice.Tests.Payments.{campaigns, stripe}

-- A buyer holds two places and pays for them.
abbrev door_open : State
door_open = record { now = 1000; db = shop }

shop-IsCounted : IsCounted shop
shop-IsCounted = record {
  counted = λ p a e. omega arith;
  placed = tt;
  tickets_below = tt;
  orders_below = tt;
}

Run-IsSound_example : IsSound 1000 ga_sale.0 × IsCounted ga_sale.0 × NotOversold 1000 ga_sale.0
Run-IsSound_example =
    Run-IsSound token_of (codes "key") digest campaigns stripe door_open
      (record { now = 1000; db = ga_sale.0 }) shop-IsSound shop-IsCounted
      (Run.then (Run.then Run.begin (Step.held_ga 7 gala 40 none standard 2 refl set_ga_hold_run))
        (Step.fulfilled (λ h. h.id == 50) ga_buyer card refl ga_sale.2))
