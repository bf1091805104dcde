-- ===== src/Collector.antt =====
-- internal/scraper/spotkline/kline.go and internal/scraper/futureskline/kline.go: the collectors of
-- K-lines, and what they have in common; and the collector of open interests.
pub mod Rows
pub mod Sink
pub mod Fetch
pub mod Spot
pub mod Futures
pub mod Reverse
pub mod OpenInterest
