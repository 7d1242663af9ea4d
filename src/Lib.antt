-- ===== src/Lib.antt =====
-- Dinner Rush: group catering from several restaurants, ordered as one cart.
--
-- The storefront (customer-web) shows a catalog, keeps a cart in the browser, and places the cart
-- through its own API routes. The adapter behind the routes turns the cart into one order for each
-- restaurant, posted to the ingestion service under a key for each restaurant, and reads the orders
-- back from the orchestrator as one view, once and as a live feed. The dashboard (web) shows the
-- pipeline's snapshots.
--
-- Prelude: the shared names; texts by code points, keyed maps as lists in insertion order, a stable
--   sort, products with a double constant rounded to whole numbers, integers.
-- Types, Catalog: customer-web/src/lib/types.ts and data.ts: `restaurants`, `dishes`, `bundles`,
--   `packages`, the maps by id or slug, and the lists derived from them. A rating is kept in tenths.
-- Cart: customer-web/src/lib/cart-context.tsx. Items: the list updaters; Bundles: the updater of
--   `addBundle` over a store of objects; Totals: the `useMemo`; Storage: the two effects and
--   `localStorage`; Calls, Sessions: the operations as steps, and visits of a browser.
-- OrderApi: the JSON types and the request of customer-web/src/lib/order-api.ts.
-- Orders: customer-web/src/lib/dr.ts. Token: `encodeCart`, `decodeCart`; Place: `placeCart`; Status:
--   `aggregateStatus` and the two status tables; Views: `composeCartView`; Ingestion: the answer of
--   services/ingestion/app/main.py that the adapter relies on.
-- Api: customer-web/src/app/api/orders: the POST route, the GET route, and (Stream) the live feed.
-- Checkout: customer-web/src/app/checkout/checkout-flow.tsx: the form and `submitOrder`; Fields: the
--   text fields; Wizard: the steps and the default date; Presses: its button over time; Charged: what a placed cart is charged.
-- Pages: the package configurator, the restaurant browser, the bundle grid, the menu and the
--   pairings of a restaurant, the suggestions of the cart page, and the order's tracker with its page
--   and (Placed) a cart that is placed and then tracked, in customer-web/src/app. Spread: a bundle's
--   page, app/bundles/[slug]/page.tsx; Confirmation: the page of a placed order, app/order/page.tsx;
--   CartView: app/cart/cart-view.tsx; MenuBar: app/restaurants/[slug]/sticky-menu-bar.tsx;
--   Display: what these print; Widgets: add-to-bundle.tsx, headcount-stepper.tsx, coverage-meter.tsx,
--   bundle-stack.tsx and site/floating-cart.tsx of customer-web/src/components.
-- Dashboard: web/src/App.tsx and types.ts; Controls: api.ts and components/ActionButton.tsx;
--   Panels: components/DownstreamCard.tsx, Funnel.tsx, Queues.tsx, KpiRow.tsx and Header.tsx.
-- Pipeline: services/orchestrator/app/main.py and libs/drcommon/drcommon. States: states.py; Models:
--   models.py; Store: the tables and the transactions, with claims (idempotency.py) and outbox rows;
--   Relay: outbox.py; Broker: broker.py; Breaker, Client: http_client.py; Orchestrator: the handlers;
--   System: deliveries, relay rounds, expiries and replays in any order.
--
-- What the runtime and others provide is a parameter: the text form of JSON values with base64url (a
-- `Codec`, with the law that a value comes back from its text), `localeCompare` (an order on texts),
-- `toLowerCase`, the test for an email address, the clock, fresh ids, and what each `fetch` comes back
-- with. A delivery of the orchestrator runs in a `Weather`, which says what the database, the broker, the
-- cache and the downstream service do, and which transactions other deliveries make between its read and
-- its commit; so a sequence of calls stands for every interleaving. A transaction is atomic and a claim
-- is unique, as PostgreSQL documents. Concurrent posts are a schedule: a list of posts in the order in which they are served, each
-- with its fate. Whole numbers are not bounded: prices, quantities and headcounts are far below 2 ^ 53.
-- The one fuelled loop of the source, the search for a weekday, is given two rounds, and ends within
-- them; the decimal digits of a number are given one round more than the number.
--
-- Not modelled: the styling, icons and animation of the pages, the markup of those whose content is not
-- named above, the text of an amount (`money`), of a status (`pretty`) and of a date, toasts, the number
-- of the HTTP status in one error message, tokens that pass `decodeCart` without having been written by
-- `encodeCart`; of the Python services the simulated downstreams, the load generator, the dashboard's
-- API, metrics, waits and latencies; an answer of a service that is JSON of another shape than the
-- adapter casts it to; and in the orchestrator a cancellation, an acknowledgement that raises, and a
-- publish that raises in `replay_dlq`.
pub mod Prelude
pub mod Types
pub mod Catalog
pub mod Cart
pub mod OrderApi
pub mod Orders
pub mod Api
pub mod Checkout
pub mod Pages
pub mod Pipeline
pub mod Dashboard
