-- ===== src/Tests/Storage.antt =====
-- The tables and databases of a symbol of Binance.
use scraper.Base.{◌≡◌, ◌↔◌, refl, true, List, [], ◌∷◌, ◌==◌, some, none, if◌then◌else◌}
use scraper.Base.Int.{pos}
use scraper.Time.{zero_time}
use scraper.Models.{Kline}
use scraper.Storage.Domain.{kline_domain}
use scraper.Storage.Router.{Services, group_rows, inserts_klines, perform_all, new_router}
use scraper.Storage.Router.Groups.{group_of, rows_of, AreDistinct, group_rows-exact}
use scraper.Storage.Router.Safety.{AllAllowed}
use scraper.Storage.Router.Inserts.{perform_all-AllAllowed}
use scraper.Text.{
  Text, codes, is_empty, lower_char, is_space, to_lower, trim_left, trim_right, keep_right,
  trim_space, text_eq,
}
use scraper.Storage.Names.{
  insert_kline_table, build_kline_table_name, database_for_year, database_name_for_year, contains,
  has_prefix, replace_all, replace_from, itoa, itoa_from,
}
use scraper.Storage.Tables.{all_alnum, insert_table-build_table}
use scraper.Storage.Databases.{database_names_agree}

-- The quarterly contract BTCUSDT_240927 has an underscore.
insert_table-build_table_example :
    (insert_kline_table (codes "futures") (codes "BTCUSDT_240927") (codes "1m")
      ≡ build_kline_table_name (codes "futures") (codes "BTCUSDT_240927") (codes "1m"))
    ↔ (all_alnum (to_lower (trim_space (codes "BTCUSDT_240927"))) ≡ true)
unfolding is_empty trim_space trim_left trim_right keep_right is_space to_lower lower_char
insert_table-build_table_example =
    insert_table-build_table (codes "futures") (codes "BTCUSDT_240927") (codes "1m") refl refl refl

database_names_agree_example :
    database_for_year (codes "{exchange}_{year}") (codes "Binance") 2024 ≡ codes "binance_2024"
unfolding database_name_for_year is_empty trim_space trim_left trim_right keep_right is_space
    to_lower lower_char text_eq contains has_prefix replace_all replace_from itoa itoa_from
database_names_agree_example =
    database_names_agree (codes "{exchange}_{year}") (codes "Binance") 2024 (codes "binance_2024")
      refl refl

abbrev candle : Text → Kline
candle symbol = record {
  time = zero_time;
  symbol = symbol;
  market = codes "spot";
  exchange = codes "Binance";
  interval = codes "1m";
  open_time = 63_871_286_280_000_000_000;
  close_time = 63_871_286_339_999_000_000;
  open_price = 0;
  high = 0;
  low = 0;
  close = 0;
  volume = 0;
  quote_volume = 0;
  num_trades = pos 1;
}

abbrev candles : List Kline
candles = candle (codes "BTCUSDT") ∷ candle (codes "ETHUSDT") ∷ candle (codes "btcusdt ") ∷ []

-- The second insert of a store fails.
abbrev services : Services
services = record {
  this_year = 2025;
  acquire = λ n domain id. none;
  open_store = λ n key. none;
  insert = λ n store batch. if n == 3 then some (codes "connection lost") else none;
}

perform_all-AllAllowed_example :
    AllAllowed 2025 true
      (perform_all services
        (inserts_klines candles ∷ inserts_klines candles ∷ [])
        (new_router true true)).trace
perform_all-AllAllowed_example =
    perform_all-AllAllowed services true true (inserts_klines candles ∷ inserts_klines candles ∷ [])

group_rows-exact_example :
    (group_of
        (kline_domain 2025 (candle (codes "BTCUSDT")))
        (group_rows (kline_domain 2025) [] candles)
      ≡ rows_of (kline_domain 2025) (kline_domain 2025 (candle (codes "BTCUSDT"))) candles)
    × AreDistinct (group_rows (kline_domain 2025) [] candles)
group_rows-exact_example =
    group_rows-exact (kline_domain 2025) (kline_domain 2025 (candle (codes "BTCUSDT"))) candles
