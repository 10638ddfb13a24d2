-- ===== src/Events/Zones.antt =====
-- events/zones.py: the pricing zones of a performance. A zone's rows of PricingZoneSeat are its list of
-- seats.

pub mod Moves
pub mod OneZone
pub mod Clone
use boxoffice.Orders.Availability.{performance_seats}
use boxoffice.Common.{
  ℕ, zero, suc, ◌+◌, ◌-◌, ◌*◌, ◌/◌, ◌%◌, ◌≤◌, ◌<◌, ◌≡◌, refl, sym, ap, subst, ◌∙◌, ◌≢◌, ◌⊎◌, inl,
  inr, ◌↔◌, Bool, true, false, not, ◌&&◌, ◌||◌, Option, none, some, List, [], ◌∷◌, ◌++◌, map, arith,
  ltb, leb, ◌==◌, if◌then◌else◌, ltb→lt, lt→ltb, leb→le, ==_iff, ==_refl, &&_split, Bool-cases,
  Option-cases, is_key, is_some, or_else, length, select, find_first, any, update_where, sum_by,
  All, contains, replicate, order_by, count_by, is_empty, insert_by,
}
use boxoffice.Common.Int.{
  ℤ, pos, negsuc, pos_part, neg_part, sub_ℕ, ◌+ℤ◌, ◌-ℤ◌, ◌≤ℤ◌, ltb_ℤ, leb_ℤ, scale, max_ℤ, min_ℤ,
  +ℤ_parts, -ℤ_parts, scale_parts, eq_of_parts, int_laws,
}
use boxoffice.Common.Text.{Text, codes, lower, text_eq, is_blank, upper, strip, text_eq_iff}
use boxoffice.Common.Results.{
  Result, ok, err, ◌>>=◌, ◌>>◌, raise_if, bind_ok, OnOk, OnOk-ok, ok-injective, err-ne-ok,
  Result-cases,
}
use boxoffice.Db.{
  Db, Organization, Performance, Section, Seat, PriceTier, PricingZone, GaAllocation, HoldSeat,
  Hold, SeatBlock, OrderStatus, Order, ItemKind, OrderItem, TicketStatus, Ticket, PaymentStatus,
  Payment, GuestAccount, PassKind, PassStatus, PassProduct, PassPurchase, PassRedemption, is_void,
}

pub record ZoneTemplate : Type 0 where
  pub id : ℕ
  pub organization : ℕ
  pub name : Text
  pub color : Text

-- Besides ZoneError: what get_or_create raises on two rows, and the constraint unique_seat_per_zone.
pub data ZoneError : Type 0 where
  no_seats_selected multiple_objects integrity_error : ZoneError

abbrev pub is_instance : ℕ → ℕ → ℕ → PricingZone → Bool
is_instance organization performance template z =
    z.organization == organization && z.performance == performance && is_key z.template template

abbrev pub new_zone : ℕ → ℕ → ℕ → ZoneTemplate → ℤ → PricingZone
new_zone id organization performance template amount = record {
  id = id;
  organization = organization;
  performance = performance;
  template = some template.id;
  name = template.name;
  color = template.color;
  amount = amount;
  seats = [];
}

abbrev pub add_zone : Db → PricingZone → Db
add_zone db z = record db { zones = db.zones ++ z ∷ []; next_id = db.next_id + 1 }

-- The tables with the zone in them, and the zone.
abbrev pub get_or_create_zone : Db → ℕ → ℕ → ZoneTemplate → ℤ → Result ZoneError (Db × PricingZone)
get_or_create_zone db organization performance template amount =
    elim (select (is_instance organization performance template.id) db.zones) [
      | [] ↦
          let z = new_zone db.next_id organization performance template amount in
          ok (add_zone db z, z)
      | z ∷ [] ↦ ok (db, z)
      | z ∷ y ∷ more ↦ err ZoneError.multiple_objects
    ]

-- `seats` without those of `gone`, and those of `wanted` that are not there yet.
abbrev pub without : List ℕ → List ℕ → List ℕ
without gone seats = select (λ s. not (contains s gone)) seats

abbrev pub has_repeat : List ℕ → Bool
has_repeat [] = false
has_repeat (x ∷ xs) = contains x xs || has_repeat xs

-- What apply_zone writes on each zone: the target takes the template's look, the price and the seats,
-- and the other zones of the performance lose them.
abbrev pub move_seats : ℕ → PricingZone → List ℕ → ZoneTemplate → ℤ → PricingZone → PricingZone
move_seats performance target seat_ids template amount z =
    if z.id == target.id
    then record z {
      name = template.name;
      color = template.color;
      amount = amount;
      seats = z.seats ++ without target.seats seat_ids;
    }
    else if z.performance == performance
    then record z { seats = without seat_ids z.seats }
    else z

unfoldable pub apply_zone :
    Db → ℕ → ℕ → List ℕ → ℤ → ZoneTemplate → Result ZoneError (Db × PricingZone)
apply_zone db organization performance seat_ids amount template = do
  raise_if (is_empty seat_ids) ZoneError.no_seats_selected
  (db', target) ← get_or_create_zone db organization performance template amount
  raise_if (has_repeat (without target.seats seat_ids)) ZoneError.integrity_error
  ok (
    record db' { zones = map (move_seats performance target seat_ids template amount) db'.zones },
    move_seats performance target seat_ids template amount target,
  )

unfoldable pub remove_seats_from_zone : Db → ℕ → ℕ → List ℕ → Db
remove_seats_from_zone db organization zone seat_ids = record db {
  zones =
      update_where (λ z. z.id == zone && z.organization == organization)
        (λ z. record z { seats = without seat_ids z.seats }) db.zones;
}

-- SET_NULL: a held seat or an item of the deleted zone keeps its price and forgets the zone.
abbrev forget_zone : ℕ → Option ℕ → Option ℕ
forget_zone zone pricing_zone = if is_key pricing_zone zone then none else pricing_zone

abbrev forget_seat : ℕ → HoldSeat → HoldSeat
forget_seat zone s = record s { pricing_zone = forget_zone zone s.pricing_zone }

abbrev forget_held : ℕ → Hold → Hold
forget_held zone h = record h { hold_seats = map (forget_seat zone) h.hold_seats }

abbrev forget_item : ℕ → OrderItem → OrderItem
forget_item zone i = record i { pricing_zone = forget_zone zone i.pricing_zone }

unfoldable pub delete_zone : Db → ℕ → Db
delete_zone db zone = record db {
  zones = select (λ z. not (z.id == zone)) db.zones;
  holds = map (forget_held zone) db.holds;
  items = map (forget_item zone) db.items;
}

abbrev pub seat_keys : List Seat → List ℕ
seat_keys [] = []
seat_keys (s ∷ seats) = s.id ∷ seat_keys seats

abbrev pub copy_zone : ℕ → ℕ → ℕ → List ℕ → PricingZone → PricingZone
copy_zone id organization target target_seats z = record z {
  id = id;
  organization = organization;
  performance = target;
  seats = select (λ s. contains s target_seats) z.seats;
}

-- The loop over the source's zones.
abbrev pub copy_zones : Db → ℕ → ℕ → List ℕ → List PricingZone → Db
copy_zones db organization target target_seats [] = db
copy_zones db organization target target_seats (z ∷ zones) =
    copy_zones (add_zone db (copy_zone db.next_id organization target target_seats z)) organization
      target target_seats zones

unfoldable pub clone_zones_from_performance : Db → ℕ → Performance → ℕ → Db
unfolding performance_seats
clone_zones_from_performance db organization target source =
    copy_zones db organization target.id (seat_keys (performance_seats db target))
      (select (λ z. z.organization == organization && z.performance == source) db.zones)

abbrev pub new_template : ℕ → ℕ → Text → Text → ZoneTemplate
new_template id organization name color = record {
  id = id;
  organization = organization;
  name = name;
  color = color;
}

-- The template of a name, with the color that was typed last, and the templates with it.
unfoldable pub get_or_create_template :
    List ZoneTemplate → ℕ → ℕ → Text → Text → List ZoneTemplate × ZoneTemplate
get_or_create_template templates next_id organization name color =
    elim (find_first (λ t. t.organization == organization && text_eq t.name name) templates) [
      | none ↦ let t = new_template next_id organization name color in (templates ++ t ∷ [], t)
      | some t ↦ (
        update_where (λ u. u.id == t.id) (λ u. record u { color = color }) templates,
        record t { color = color },
      )
    ]
