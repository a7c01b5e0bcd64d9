-- ===== src/Tests/Wallet.antt =====
-- A wallet with one coin and one transaction.
use rgb.Base.{[], ◌∷◌}
use rgb.Base.Key.{nat_key, pair_key}
use rgb.Wallet.Filter.{Wallet}

abbrev one_coin : Wallet (Unit {0}) (Unit {0}) (Unit {0})
one_coin = record {
  descr = tt;
  coins = record { outpoint = (5, 0); rest = tt } ∷ [];
  transactions = (5, tt) ∷ [];
}
