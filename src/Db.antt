-- ===== src/Db.antt =====
-- The tables that the ticket path reads and writes, after the models of events/models.py,
-- venues/models.py, orders/models.py, guests/models.py and promotions/models.py. A row's list of
-- children (the HoldSeats of a Hold, the seats of a zone) stands inside the row, since it is deleted
-- with it. Amounts are integers in cents; instants are numbers of seconds; session keys, users and
-- venues are only compared, so they are numbers.
use boxoffice.Common.{ℕ, Bool, Option, List}
use boxoffice.Common.Int.{ℤ}
use boxoffice.Common.Text.{Text}
use boxoffice.Promotions.{PromoCode}

pub record Organization : Type 0 where
  pub currency : Text
  -- Hundredths of a percent; none where the platform's own rate applies.
  pub platform_fee_percent : Option ℕ

pub record Performance : Type 0 where
  pub id : ℕ
  pub organization : ℕ
  pub event : ℕ
  pub venue : ℕ
  pub starts_at : ℕ
  pub seating_chart : Option ℕ

pub record Section : Type 0 where
  pub id : ℕ
  pub organization : ℕ
  pub chart : ℕ

-- A seat joined with its section.
pub record Seat : Type 0 where
  pub id : ℕ
  pub organization : ℕ
  pub section : Section

pub record PriceTier : Type 0 where
  pub id : ℕ
  pub organization : ℕ
  pub performance : Option ℕ
  pub section : Option ℕ
  pub name : Text
  pub amount : ℤ
  pub currency : Text

pub record PricingZone : Type 0 where
  pub id : ℕ
  pub organization : ℕ
  pub performance : ℕ
  pub template : Option ℕ
  pub name : Text
  pub color : Text
  pub amount : ℤ
  pub seats : List ℕ

pub record GaAllocation : Type 0 where
  pub performance : ℕ
  pub capacity : ℕ
  pub sold : ℕ

pub record HoldSeat : Type 0 where
  pub seat : ℕ
  pub price_tier : Option ℕ
  pub pricing_zone : Option ℕ
  pub unit_amount : ℤ

pub record Hold : Type 0 where
  pub id : ℕ
  pub organization : ℕ
  pub performance : ℕ
  pub session_key : ℕ
  pub user : Option ℕ
  pub expires_at : ℕ
  pub price_tier : Option ℕ
  pub quantity : Option ℕ
  pub ga_unit_amount : Option ℤ
  pub hold_seats : List HoldSeat
  pub promo_code : Option ℕ
  pub promo_code_text : Text
  pub discount_amount : Option ℤ
  pub donation_amount : Option ℤ
  pub donation_campaign : Option ℕ

pub record SeatBlock : Type 0 where
  pub performance : ℕ
  pub seat : ℕ

pub data OrderStatus : Type 0 where
  pending paid cancelled refunded : OrderStatus

pub record Order : Type 0 where
  pub id : ℕ
  pub organization : ℕ
  pub performance : Option ℕ
  pub buyer_email : Text
  pub buyer_name : Text
  pub guest : Option ℕ
  pub promo_code_text : Text
  pub discount_amount : ℤ
  pub total : ℤ
  pub status : OrderStatus
  pub stripe_checkout_session_id : Option Text
  pub token : Text

pub data ItemKind : Type 0 where
  ticket donation pass : ItemKind

pub record OrderItem : Type 0 where
  pub order : ℕ
  pub kind : ItemKind
  pub price_tier : Option ℕ
  pub pricing_zone : Option ℕ
  pub donation_campaign : Option ℕ
  pub pass_product : Option ℕ
  pub seat : Option ℕ
  pub quantity : ℕ
  pub unit_amount : ℤ

pub data TicketStatus : Type 0 where
  valid used void : TicketStatus

pub record Ticket : Type 0 where
  pub id : ℕ
  pub organization : ℕ
  pub order : ℕ
  pub performance : ℕ
  pub seat : Option ℕ
  pub holder_name : Text
  pub token : Text
  pub status : TicketStatus
  pub used_at : Option ℕ
  pub scanned_by : Option ℕ

pub data PaymentStatus : Type 0 where
  succeeded refunded : PaymentStatus

pub record Payment : Type 0 where
  pub order : ℕ
  pub provider : Text
  pub amount : ℤ
  pub status : PaymentStatus
  pub provider_ref : Text

pub record GuestAccount : Type 0 where
  pub id : ℕ
  pub organization : ℕ
  pub email : Text
  pub name : Text
  pub marketing_opt_in : Bool
  pub marketing_opt_in_at : Option ℕ

pub data PassKind : Type 0 where
  season flex : PassKind

pub data PassStatus : Type 0 where
  active exhausted refunded : PassStatus

-- No covered event stands for all of them.
pub record PassProduct : Type 0 where
  pub id : ℕ
  pub organization : ℕ
  pub kind : PassKind
  pub price : ℤ
  pub credit_count : Option ℕ
  pub valid_from : Option ℕ
  pub valid_until : Option ℕ
  pub events : List ℕ
  pub is_active : Bool

pub record PassPurchase : Type 0 where
  pub id : ℕ
  pub organization : ℕ
  pub product : ℕ
  pub guest : Option ℕ
  pub order : ℕ
  pub kind : PassKind
  pub credit_count : Option ℕ
  pub credits_remaining : Option ℕ
  pub valid_from : Option ℕ
  pub valid_until : Option ℕ
  pub covered_events : List ℕ
  pub status : PassStatus

pub record PassRedemption : Type 0 where
  pub organization : ℕ
  pub pass_purchase : ℕ
  pub order : ℕ
  pub ticket : ℕ
  pub performance : ℕ
  pub event : ℕ
  pub seat : Option ℕ
  pub face_value : ℤ
  pub credits_used : ℕ

-- A foreign key always leads to a row, so what is read through one is a function of the key; the
-- tables that queries range over are lists, in the order that the queries ask for.
pub record Db : Type 0 where
  pub organization : ℕ → Organization
  pub performance : ℕ → Performance
  pub venue_charts : ℕ → List ℕ
  pub sections : List Section
  pub seats : List Seat
  pub tier : ℕ → PriceTier
  pub tier_ids : List ℕ
  pub zones : List PricingZone
  pub allocations : List GaAllocation
  pub blocks : List SeatBlock
  pub holds : List Hold
  pub orders : List Order
  pub items : List OrderItem
  pub tickets : List Ticket
  pub payments : List Payment
  pub guests : List GuestAccount
  pub promos : List PromoCode
  pub pass_products : List PassProduct
  pub pass_purchases : List PassPurchase
  pub pass_redemptions : List PassRedemption
  pub next_id : ℕ

abbrev pub is_void : TicketStatus → Bool
is_void TicketStatus.void = Bool.true
is_void other = Bool.false
