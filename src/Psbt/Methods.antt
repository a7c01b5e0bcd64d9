-- ===== src/Psbt/Methods.antt =====
-- Close methods as keys of maps, for the groups of psbt/src/rgb.rs.
use rgb.Base.{Bool, true, false, ◌≡◌, ◌↔◌, arith}
use rgb.Base.Key.{Key}
use rgb.Descriptor.Keychain.{CloseMethod, opret_first, tapret_first}
use rgb.Psbt.Transition.{method_eq}

abbrev pub method_before : CloseMethod → CloseMethod → Bool
method_before opret_first opret_first = false
method_before opret_first tapret_first = true
method_before tapret_first _ = false

pub method_eq_iff : (m n : CloseMethod) → (method_eq m n ≡ true) ↔ (m ≡ n)
method_eq_iff opret_first opret_first = ground arith
method_eq_iff opret_first tapret_first = ground arith
method_eq_iff tapret_first opret_first = ground arith
method_eq_iff tapret_first tapret_first = ground arith

instance abbrev pub method_key : Key CloseMethod
method_key = record { beq = method_eq; before = method_before; beq_iff = method_eq_iff }
