-- ===== src/Lib.antt =====
-- The box office of a multi-tenant ticket shop: promo codes, holds, sales and their inventory.
--
-- Parts, and how they meet. A buyer's session holds places or seats of a performance
-- (orders/services.py), may put a promo code (promotions/services.py) or a donation on the hold,
-- pays, and the payment turns the hold into an order with tickets (payments/services.py) for a guest
-- account (guests/models.py); the tickets
-- are scanned at the door (scanning/services.py). The price of a seat comes from events/pricing.py.
-- A request belongs to the theater of its host (tenants/middleware.py); staff are let in by their role
-- (accounts/permissions.py), draw the seats of a chart (venues/generation.py, or from an image by
-- venues/chart_parsing.py) and mail the guests who consent (campaigns/services.py), each of whom can leave
-- by a link (guests/tokens.py).
--
-- - Common: lists as query sets (filter, first, exists, update, Sum), signed integers, ASCII text,
--   results, rounding; Common/Counting has the laws of counts over filtered rows.
-- - Db: the rows of the models as records and the tables as one record of lists. HoldSeats stand in
--   their Hold and a zone's seats in the zone, as they are deleted with it.
-- - Promotions: PromoCode, get_usable_code, validate_code, compute_discount, record_redemption.
-- - Events/Pricing: resolve_seat_tier, resolve_ga_tier, resolve_seat_price, zones_by_seat_id.
-- - Events/Zones: events/zones.py, the pricing zones and their templates.
-- - Guests: get_or_create_for_email, record_marketing_opt_in.
-- - Guests/Links: guests/tokens.py, the session and the two-way consent of guests/services.py, and
--   guest_verify and guest_unsubscribe of guests/views.py; signing and its laws are a parameter.
-- - Venues: the layout of a section (venues/models.py). Venues/Labels, Venues/Geometry and
--   Venues/Generation: venues/generation.py. The floats and their operations are a parameter.
-- - Venues/Spec: venues/chart_parsing.py. Venues/Spec/Validate has validate_chart_spec, over the JSON value
--   that the parsing service sent; the conversions int, float and str are a parameter.
-- - Campaigns: campaigns/services.py and the models it writes. Campaigns/Sender: the command
--   send_campaign_emails, as one run and, in Campaigns/Sender/Overlap, as a step relation of runs that
--   overlap statement by statement. The mail server's answer is a parameter.
-- - Tenants: tenants/middleware.py, which gives a request its theater.
-- - Accounts: the roles of accounts/models.py. Accounts/Permissions: the gates of
--   accounts/permissions.py. Accounts/Throttle: accounts/throttle.py and the POST branch of login_view of
--   accounts/views.py; the cache and its laws are a parameter.
-- - Orders/Availability, Orders/Holds, Orders/Money, Orders/Cart, Orders/Void: the functions of
--   orders/services.py, each under its own name. Orders/Fits is about set_ga_hold.
-- - Payments/Fulfill: fulfill_hold, _fulfill_ga, _fulfill_reserved of payments/services.py, with the
--   unique constraints of orders/models.py that an insert can meet: one order of a Stripe session, one
--   live ticket of a seat, and the tokens of orders and of tickets.
-- - Orders/Tokens: the signature scheme of orders/tokens.py.
-- - Scanning: redeem_ticket of scanning/services.py.
-- - Passes: passes/services.py. Payments/PassRedemption: fulfill_hold_with_pass of
--   payments/services.py.
-- - Payments/Purchases, Payments/Checkout, Payments/Refund: fulfill_donation, fulfill_pass_purchase,
--   fulfill_checkout_session and refund_order. Stripe's refund and the table of campaigns are
--   parameters.
-- - Payments/Units, Payments/LineItems: the amounts that Stripe is given.
-- - Inventory: the invariant IsSound of the tables at an instant, and its preservation. Inventory/Counted:
--   the count of live general-admission tickets behind the sold places.
-- - System: the transactions as a step relation, with time passing between them.
--
-- Representation. Amounts are integers in cents; every stored amount has two decimal places and the
-- products fit the decimal context's 28 digits, so nothing is rounded but where the code quantizes.
-- A percentage has hundredths. An instant is a number of seconds, and one reading of the clock serves
-- a whole call. Text is a list of code points, with the case and space rules of ASCII. Keys that are
-- only compared are numbers. A mutation is a function of the tables: an error carries no tables, as
-- transaction.atomic rolls back; concurrent calls are serialized by the row locks (or SQLite's
-- IMMEDIATE transactions), so an execution is a sequence of calls. Random tokens are a parameter, a
-- function from a row's pk; HMAC-SHA256 and the
-- secret key of the signatures are parameters too. Every loop is over a list, but
-- for two. The decimal digits of a key take the number's successor as fuel: a number has no more
-- digits than that. The search for a section's name takes two more than there are taken names, and of
-- so many suffixes one is free (Venues/Spec/Names).
--
-- Not modelled: the dashboard and the other views, forms, templates, the text of a mail, Stripe's API, the
-- parsing service, the session store, migrations, the texts of a scan's verdict: they render, configure or
-- pass on. Of venues/chart_parsing.py build_chart_from_spec and of venues/chart_io.py export and import are
-- left out: they delete sections, and what goes with the price tiers of a section is not modelled.
pub mod Common
pub mod Promotions
pub mod Db
pub mod Events
pub mod Guests
pub mod Accounts
pub mod Tenants
pub mod Campaigns
pub mod Venues
pub mod Orders
pub mod Payments
pub mod Inventory
pub mod Scanning
pub mod Passes
pub mod System
mod Tests
