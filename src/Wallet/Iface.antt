-- ===== src/Wallet/Iface.antt =====
-- An interface of rgbstd, as far as src/wallet.rs and src/pay.rs read it, and the errors of
-- src/errors.rs that its gaps lead to. Names are texts.
use rgb.Base.{String, Option, List}

pub record TransitionIface : Type 0 where
  pub default_assignment : Option String

pub record Iface : Type 0 where
  pub default_operation : Option String
  pub transitions : List (String × TransitionIface)

pub data HistoryError : Type 0 where
  no_default_op default_op_not_transition no_default_assignment : HistoryError
