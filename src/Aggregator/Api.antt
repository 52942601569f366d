-- ===== src/Aggregator/Api.antt =====
-- services/aggregator/internal/infra/api: the HTTP surface.
pub mod Defs
pub mod Promise
pub mod Router
pub mod Answers
pub mod Totals
pub mod EndToEnd
pub mod Listing
pub mod Encode
pub mod Text
pub mod EventsText
