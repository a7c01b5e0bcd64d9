-- ===== src/Resolver/Api.antt =====
-- The trait `RgbResolver` of src/resolvers/any.rs, which the clients of a server implement.
use rgb.Base.{ℕ, String, Option, Result}
use rgb.Chain.{Network, WitnessAnchor}

-- The trait `RgbResolver` of src/resolvers/any.rs. A method on `&mut self` returns the new state.
pub record RgbResolver (S Tx Pos : Type 0) : Type 0 where
  pub check : S → Network → String → Result String (Unit {0})
  pub resolve_height : S → ℕ → S × Result String (WitnessAnchor Pos)
  pub resolve_pub_witness : S → ℕ → Result (Option String) Tx
