-- ===== src/Pay/Arrange.antt =====
-- The second part of `construct_psbt_rgb` of src/pay.rs: the outputs of the new PSBT are put in order,
-- and the outputs of the change and of the beneficiary are found again. `debug` says whether the
-- build checks `debug_assert_ne!`.
use rgb.Base.{
  ℕ, Bool, false, ◌&&◌, ◌==◌, not, Option, none, some, List, Result, ok, panic, expect_ok,
  expect_some, ◌>>=◌, ◌>>◌, if◌then◌else◌, find, get_elem?,
}
use rgb.Pay.Api.{Beneficiary, blinded_seal, witness_vout, PsbtMeta, PayApi}
use rgb.Pay.Inputs.{Composed}
use rgb.Psbt.Bundles.{Psbt, change_first}

module _ {Output Transition CloseMethodSet : Type 0} (api : PayApi Output Transition CloseMethodSet)
    (debug : Bool) where
  open api use {
    Secret, Address, Script, script_pubkey, same_script, is_p2tr, script, vout, is_tapret_host,
    HostError, set_tapret_host, sort_outputs_by, Rest,
  }

  abbrev pub Meta : Type 0
  Meta = PsbtMeta Rest

  unfoldable pub beneficiary_script : Beneficiary Secret Address → Option Script
  beneficiary_script (blinded_seal s) = none
  beneficiary_script (witness_vout address method) = some (script_pubkey address)

  abbrev pub is_script : Script → Option Script → Bool
  is_script s none = false
  is_script s (some t) = same_script s t

  abbrev pub found_host :
      List Output → Option (List Output × Result HostError (Unit {0})) → Composed api (List Output)
  found_host outputs none = ok outputs
  found_host outputs (some (outputs', r)) = expect_ok r >> ok outputs'

  -- the first taproot output that is not the beneficiary's becomes the tapret host
  unfoldable pub mark_tapret : Option Script → List Output → Composed api (List Output)
  unfolding change_first
  mark_tapret beneficiary outputs = found_host outputs (
      change_first (λ o. is_p2tr (script o) && not (is_script (script o) beneficiary))
        set_tapret_host outputs)

  unfoldable pub change_script : Meta → List Output → Option Script
  change_script meta outputs = elim meta.change_vout [
    | none ↦ none
    | some v ↦ elim (get_elem? outputs v) [ none ↦ none | some o ↦ some (script o) ]
  ]

  -- the loop that looks for the change among the sorted outputs
  unfoldable pub find_change : Option Script → Meta → List Output → Meta
  find_change none meta outputs = meta
  find_change (some s) meta outputs = elim (find (λ o. same_script (script o) s) outputs) [
    | none ↦ meta
    | some o ↦ record meta { change_vout = some (vout o) }
  ]

  abbrev pub is_vout : ℕ → Option ℕ → Bool
  is_vout v none = false
  is_vout v (some w) = v == w

  unfoldable pub beneficiary_vout :
      Beneficiary Secret Address → Meta → List Output → Composed api (Option ℕ)
  beneficiary_vout (blinded_seal s) meta outputs = ok none
  beneficiary_vout (witness_vout address method) meta outputs = do
    o ← expect_some (find (λ o. same_script (script o) (script_pubkey address)) outputs)
    if debug && is_vout (vout o) meta.change_vout then panic else ok (some (vout o))

  -- `sort_outputs_by(…).expect(…)`, on the PSBT with the marked outputs
  abbrev pub sorted : Psbt Output × Result HostError (Unit {0}) → Composed api (Psbt Output)
  sorted (p, r) = expect_ok r >> ok p

  unfoldable pub arrange :
      Psbt Output → Meta → Beneficiary Secret Address → Composed api (Psbt Output × Meta × Option ℕ)
  unfolding beneficiary_script mark_tapret change_script find_change beneficiary_vout
  arrange p meta beneficiary = do
    marked ← mark_tapret (beneficiary_script beneficiary) p.outputs
    p' ← sorted (sort_outputs_by (λ o. not (is_tapret_host o)) (record p { outputs = marked }))
    let meta' = find_change (change_script meta marked) meta p'.outputs
    v ← beneficiary_vout beneficiary meta' p'.outputs
    ok (p', meta', v)
