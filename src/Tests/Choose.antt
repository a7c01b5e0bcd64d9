-- ===== src/Tests/Choose.antt =====
-- The choice of a payment's outputs, for a wallet whose two outputs hold 50.
use rgb.Base.{◌≡◌, refl, false, some, List, ok, arith}
use rgb.Base.Key.{nat_key, pair_key}
use rgb.Pay.Api.{amount, XOutputSeal}
use rgb.Pay.Inputs.{Invoice, operation_of, assignment_of, prev_outputs_of}
use rgb.Pay.Names.{choose-state_name}
use rgb.Pay.Insufficient.{choose-insufficient}
use rgb.Pay.Construct.{choose}
use rgb.Pay.Covered.{allocated, everything}
use rgb.Tests.Pay.{amounts}
use rgb.Base.Map.{contains}
use rgb.Chain.{chain_key}
use rgb.Psbt.Methods.{method_key}
use rgb.Wallet.History.{state_name}
use rgb.Tests.Psbt.{keys, transitions}
use rgb.Tests.Transfer.{payments, provider, invoice, allocations, fungible_iface}

-- The amount of 100 is asked of the state with the interface's names.
abbrev asking : Invoice payments
asking = record invoice { iface = some "RGB20" }

choose-state_name_example :
    choose keys transitions (λ methods. methods.0) payments provider amounts false 20 40 asking
    ≡ prev_outputs_of payments provider amounts 40 20 8 8 "assetOwner" (amount 100)
unfolding state_name
choose-state_name_example =
    choose-state_name keys transitions (λ methods. methods.0) payments provider amounts false 20 40
      asking 8 "RGB20" fungible_iface 8 refl refl refl refl refl refl

names :
    (operation_of payments asking fungible_iface ≡ ok "transfer")
    × (assignment_of payments asking fungible_iface "transfer" ≡ ok "assetOwner")
unfolding operation_of assignment_of
names = (refl, refl)

choose-insufficient_example :
    (seals : List XOutputSeal) × (choose keys transitions
        (λ methods. methods.0)
        payments
        provider
        amounts
        false
        20
        40
        asking
      ≡ ok seals)
    × (allocated (λ s. contains s seals) allocations ≡ allocated everything allocations)
choose-insufficient_example =
    choose-insufficient keys transitions (λ methods. methods.0) payments provider amounts false 20
      40 asking 8 100 "RGB20" "transfer" "assetOwner" fungible_iface 8 allocations refl refl refl
      refl refl names.0 names.1 refl (omega arith) (omega arith)
