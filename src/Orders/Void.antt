-- ===== src/Orders/Void.antt =====
-- orders/services.py's void_order: an order's live tickets become void and its inventory is freed.

pub mod Effects
use boxoffice.Common.{
  ℕ, ◌-◌, Bool, not, ◌&&◌, Option, none, some, List, ◌==◌, if◌then◌else◌, is_some, length, select,
  update_where,
}
use boxoffice.Db.{Db, GaAllocation, Order, TicketStatus, Ticket, is_void}

abbrev pub is_order_live : ℕ → Ticket → Bool
is_order_live order t = t.order == order && not (is_void t.status)

abbrev pub live_tickets : Db → ℕ → List Ticket
live_tickets db order = select (is_order_live order) db.tickets

abbrev pub ga_count : List Ticket → ℕ
ga_count tickets = length (select (λ t. not (is_some t.seat)) tickets)

abbrev pub void_ticket : Ticket → Ticket
void_ticket t = record t { status = TicketStatus.void }

-- Frees `n` sold places of a performance's allocation, where there is one.
abbrev pub free_places : ℕ → ℕ → List GaAllocation → List GaAllocation
free_places performance n =
    update_where (λ a. a.performance == performance) (λ a. record a { sold = a.sold - n })

abbrev pub free_ga : Option ℕ → ℕ → List GaAllocation → List GaAllocation
free_ga none n allocations = allocations
free_ga (some performance) n allocations =
    if n == 0 then allocations else free_places performance n allocations

unfoldable pub void_order : Db → Order → Db × ℕ
void_order db order =
    let tickets = live_tickets db order.id in
    (
      record db {
        tickets = update_where (is_order_live order.id) void_ticket db.tickets;
        allocations = free_ga order.performance (ga_count tickets) db.allocations;
      },
      length tickets,
    )
