-- ===== src/Tests/Transfer.antt =====
-- A transfer over a stock that counts the fascias it has taken; scripts and addresses are numbers.
use rgb.Base.{
  any, ◌&&◌, ℕ, ◌≡◌, refl, ◌==◌, ◌+◌, String, Bool, true, false, none, some, List, [], ◌∷◌, ok, err,
}
use rgb.Base.Key.{nat_key, pair_key}
use rgb.Chain.{bitcoin, liquid, other}
use rgb.Descriptor.Keychain.{opret_first}
use rgb.Descriptor.Tapret.{already_assigned}
use rgb.Pay.Api.{
  PsbtMeta, Beneficiary, witness_vout, amount, PayApi, WalletProvider, XOutputSeal, OutputSeal,
}
use rgb.Pay.Errors.{CompletionError}
use rgb.Pay.Inputs.{Invoice}
use rgb.Pay.Transfer.{
  TransferApi, FasciaOf, add_tweak, tweak_of, beneficiary_seals, consign, transfer,
}
use rgb.Pay.Select.{Allocation}
use rgb.Chain.{chain_key}
use rgb.Psbt.Methods.{method_key}
use rgb.Pay.Arrange.{
  arrange, mark_tapret, change_script, find_change, beneficiary_vout, beneficiary_script, is_vout,
}
use rgb.Pay.Change.{OutputLaws, arrange-change}
use rgb.Pay.Unchanged.{transfer-keeps_stock}
use rgb.Psbt.Bundles.{
  rgb_bundles, bundles_of, contract_bundle, group_all, group_one, make_bundles, rgb_bundles_to_mpc,
  commit_all, commit_one, change_first,
}
use rgb.Psbt.Commit.{rgb_commit, methods_of, union_all, commit_methods}
use rgb.Psbt.Consumer.{rgb_consumer, read_opid, set_rgb_consumer, set_by_consumer}
use rgb.Psbt.Embed.{embed_inputs, embed_one, rgb_embed}
use rgb.Psbt.Inputs.{rgb_contract_ids, rgb_contract_consumers, consumers_from}
use rgb.Psbt.Key.{rgb_transition_key, rgb_closing_methods_key, rgb_in_consumed_by_key}
use rgb.Psbt.Transition.{
  rgb_transition, rgb_close_method, parse_transition, parse_method, merge_with, prepare,
  push_rgb_transition,
}
use rgb.Tests.Embed.{Host, bundles, commits, psbt, info}
use rgb.Tests.Psbt.{keys, transitions}
use rgb.Wallet.Iface.{Iface}

abbrev reduced : XOutputSeal → OutputSeal
reduced (bitcoin s) = s
reduced (liquid s) = s
reduced (other s) = s

abbrev pub fungible_iface : Iface
fungible_iface = record {
  default_operation = some "transfer";
  transitions = ("transfer", record { default_assignment = some "assetOwner" }) ∷ [];
}

-- two outputs of the wallet hold 50
abbrev pub allocations : List (Allocation XOutputSeal ℕ)
allocations =
    record { seal = bitcoin (opret_first, (5, 0)); state = 30 }
    ∷ record { seal = bitcoin (opret_first, (5, 1)); state = 20 }
    ∷ []

abbrev pub payments : PayApi Host (ℕ × ℕ) (Bool × Bool)
payments = record {
  Alloc21 = ℕ;
  Other = ℕ;
  Secret = ℕ;
  Address = ℕ;
  Network = ℕ;
  Script = ℕ;
  script_pubkey = λ a. a;
  same_script = λ s t. s == t;
  is_p2tr = λ s. true;
  as_reduced_unsafe = reduced;
  Stock = ℕ;
  StockError = String;
  to_string = λ e. e;
  iface = λ s name. ok fungible_iface;
  Contract = ℕ;
  contract_iface = λ s c name. ok c;
  Assignment = ℕ;
  contract_assignments_for = λ s c os. ok [];
  ContractError = String;
  DataState = ℕ;
  same_data = λ a b. a == b;
  data_from = λ a. a;
  fungible = λ c name p. ok allocations;
  data_of = λ c name p. ok [];
  compose = λ s i os m b c. err "nothing to compose";
  script = λ o. 1;
  vout = λ o. 0;
  is_tapret_host = λ o. false;
  HostError = String;
  set_tapret_host = λ o. (o, ok tt);
  set_opret_host = λ o. (o, ok tt);
  sort_outputs_by = λ f p. (p, ok tt);
  construct_op_return = λ p f. (p, ok tt);
  complete_construction = λ p. p;
  Rest = Unit {0};
  TxParams = ℕ;
  tx_with_fee = λ fee. fee;
  set_change_keychain = λ tx k. tx;
  ConstructionError = String;
  TapretCommitment = ℕ;
  TapretKeyError = String;
  not_taproot_output = "not a taproot output";
  is_tapret_dbc_output = λ o. false;
  terminal_derivation = λ o. none;
  tapret_commitment = λ o. ok 0;
  txid = λ p. 5;
  Transfer = ℕ;
}

abbrev pub provider : WalletProvider payments ℕ
provider = record {
  include_outpoint = λ w o. true;
  seal_close_method = λ w. opret_first;
  add_tapret_tweak = λ w t c. (w, err (already_assigned t));
  construct_psbt = λ w os bs tx. (w, err "no funds");
}

abbrev transfers :
    TransferApi payments (FasciaOf keys transitions bundles false commits payments provider)
transfers = record {
  consume_fascia = λ s f. (s + 1, ok tt);
  transfer = λ s c seals secrets. (s, ok c);
}

-- no output of the PSBT has the script 2 of the beneficiary
abbrev pub invoice : Invoice payments
invoice = record {
  contract = some 8;
  iface = none;
  operation = none;
  assignment = none;
  owned_state = amount 100;
  beneficiary = witness_vout 2 opret_first;
  network = 0;
}

abbrev fault :
    CompletionError String
      (rgb.Pay.Transfer.CommitErr keys transitions bundles false commits payments provider)
fault = CompletionError.no_beneficiary_output

refused :
    (transfer keys transitions bundles false commits payments provider transfers 0 40 invoice
      (rgb_embed keys transitions psbt (info ∷ [])).0).3
    ≡ err fault
unfolding rgb_embed embed_one embed_inputs set_rgb_consumer set_by_consumer rgb_consumer read_opid
    push_rgb_transition prepare rgb_close_method parse_method rgb_transition parse_transition
    merge_with rgb_transition_key rgb_closing_methods_key rgb_in_consumed_by_key rgb_commit
    rgb_bundles_to_mpc rgb_bundles bundles_of contract_bundle group_all group_one make_bundles
    rgb_contract_ids rgb_contract_consumers consumers_from commit_all commit_one change_first
    methods_of union_all commit_methods transfer add_tweak beneficiary_seals consign
refused = refl

transfer-keeps_stock_example :
    (transfer keys transitions bundles false commits payments provider transfers 0 40 invoice
      (rgb_embed keys transitions psbt (info ∷ [])).0).1
    ≡ 40
transfer-keeps_stock_example =
    transfer-keeps_stock keys transitions bundles false commits payments provider transfers 0 40
      invoice (rgb_embed keys transitions psbt (info ∷ [])).0 fault refused refl

abbrev output_laws : OutputLaws payments
output_laws = record {
  same_refl = (λ s. (nat_key.beq_iff s s).1 refl);
  script-host = λ o. refl;
  any-sort = λ f p s e. refl;
}

abbrev meta : PsbtMeta (Unit {0})
meta = record { change_vout = some 0; rest = tt }

arranged : arrange payments true psbt meta (Beneficiary.blinded_seal 3) ≡ ok (psbt, meta, none)
unfolding arrange mark_tapret change_script find_change beneficiary_vout beneficiary_script
    change_first
arranged = refl

changed : change_script payments true meta psbt.outputs ≡ some 1
unfolding change_script
changed = refl

arrange-change_example :
    any (λ x. (1 == 1) && is_vout payments true (payments.vout x) (some 0)) psbt.outputs ≡ true
arrange-change_example =
    arrange-change payments true output_laws psbt psbt meta meta (Beneficiary.blinded_seal 3) none 0
      1 refl changed arranged
