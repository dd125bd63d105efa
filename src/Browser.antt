-- ===== src/Browser.antt =====
-- The scripts under web/src: the browser's half of the exchange.
pub mod Reader
pub mod Fetch
pub mod Connect
pub mod PageText
pub mod Page
pub mod Exchange
pub mod Retrieve
