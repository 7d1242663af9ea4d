-- ===== src/Pages.antt =====
-- The pages of customer-web/src/app that keep state or compute of their own: the configurator of a
-- package, the browser of the restaurants, a restaurant's menu and pairings, the suggestions of the
-- cart page, the order's tracker, the page of a bundle and that of a placed order, and the pieces that
-- the pages share.
mod Configurator
mod Estimate
mod Suggestions
mod Browser
mod Bundles
mod Menu
mod Pairings
mod Tracker
mod Spread
mod Widgets
mod Display
mod MenuBar
mod CartView
mod Confirmation
