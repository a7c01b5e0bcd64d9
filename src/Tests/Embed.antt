-- ===== src/Tests/Embed.antt =====
-- A batch of one transition, embedded and committed.
use rgb.Base.{
  All, ℕ, ◌≡◌, refl, Bool, true, false, ◌||◌, Option, none, some, List, [], ◌∷◌, ok, ltb, any,
}
use rgb.Chain.{bitcoin, chain_key}
use rgb.Descriptor.Keychain.{opret_first, tapret_first}
use rgb.Psbt.Anchors.{has_tapret, has_opret, uses, rgb_commit-anchor}
use rgb.Psbt.Committed.{rgb_commit-Fits}
use rgb.Psbt.Stored.{BundleLaws, Fits}
use rgb.Psbt.Bundles.{
  Psbt, BundleApi, TransitionBundle, pairs, rgb_bundles, bundles_of, contract_bundle, group_all,
  group_one, make_bundles, rgb_bundles_to_mpc, commit_all, commit_one, change_first,
}
use rgb.Psbt.Commit.{
  CommitApi, CommitLaws, Fascia, AnchorSet, opret, rgb_commit, methods_of, union_all,
  commit_methods,
}
use rgb.Psbt.Consumer.{rgb_consumer, read_opid, set_rgb_consumer, set_by_consumer}
use rgb.Psbt.Embed.{TransitionInfo, embed_inputs, embed_one, rgb_embed}
use rgb.Psbt.EmbedInputs.{spends}
use rgb.Psbt.EmbedStored.{rgb_embed-stores}
use rgb.Psbt.Embedded.{rgb_embed-spends}
use rgb.Psbt.Inputs.{rgb_contract_ids, rgb_contract_consumers, consumers_from}
use rgb.Psbt.Key.{prop_key, rgb_transition_key, rgb_closing_methods_key, rgb_in_consumed_by_key}
use rgb.Psbt.Methods.{method_key}
use rgb.Psbt.Transition.{
  method_eq, rgb_transition, rgb_close_method, parse_transition, parse_method, merge_with, prepare,
  push_rgb_transition,
}
use rgb.Tests.Psbt.{keys, key_laws, transition_laws, bare_input, bare_consumer, transitions}

abbrev pub Host : Type 0
Host = Bool × List ℕ

abbrev pub bundles : BundleApi (ℕ × ℕ) (Unit {0})
bundles = record {
  Dichotomy = List (TransitionBundle (ℕ × ℕ));
  with = λ first second. first ∷ elim second [ none ↦ [] | some b ↦ b ∷ [] ];
  iter = λ d. d;
  bundle_id = λ b. 1;
  has_room = λ n. ltb n 65535;
  Output = Host;
  is_tapret_host = λ o. false;
  is_opret_host = λ o. o.0;
  set_mpc_message = λ o id bundle. ((o.0, id ∷ bundle ∷ []), ok tt);
}

-- a set is its two flags
abbrev pub commits : CommitApi Host
commits = record {
  CloseMethodSet = Bool × Bool;
  from_method = λ m. (method_eq tapret_first m, method_eq opret_first m);
  union = λ a b. (a.0 || b.0, a.1 || b.1);
  has_tapret_first = λ a. a.0;
  has_opret_first = λ a. a.1;
  DbcError = Unit {0};
  Tapret = ℕ;
  Opret = ℕ;
  Witness = ℕ;
  dbc_commit_tapret = λ p. (p, ok 1);
  dbc_commit_opret = λ p. (p, ok 2);
  pub_witness = λ p. 0;
}

abbrev commit_laws : CommitLaws commits
commit_laws = record {
  tapret-from = λ m. refl;
  opret-from = λ m. refl;
  tapret-union = λ a b. refl;
  opret-union = λ a b. refl;
}

abbrev pub psbt : Psbt Host
psbt = record { inputs = bare_input ∷ []; outputs = (true, []) ∷ []; proprietary = [] }

abbrev pub info : TransitionInfo (ℕ × ℕ)
info = record { id = 3; inputs = bitcoin (5, 1) ∷ []; transition = (3, 8); method = opret_first }

embedded : (rgb_embed keys transitions psbt (info ∷ [])).1 ≡ ok tt
unfolding rgb_embed embed_one embed_inputs set_rgb_consumer set_by_consumer rgb_consumer read_opid
    push_rgb_transition prepare rgb_close_method parse_method rgb_transition parse_transition
    merge_with rgb_transition_key rgb_closing_methods_key rgb_in_consumed_by_key
embedded = refl

rgb_embed-spends_example :
    any
      (spends key_laws (bitcoin (5, 1)) 8 3)
      (rgb_embed keys transitions psbt (info ∷ [])).0.inputs
    ≡ true
rgb_embed-spends_example =
    rgb_embed-spends key_laws transitions psbt [] [] info (bitcoin (5, 1))
      ((λ c. (none, bare_consumer c)), tt) embedded refl

rgb_embed-stores_example :
    let m' = (rgb_embed keys transitions psbt (info ∷ [])).0.proprietary in
    (rgb_transition keys transitions m' 3 ≡ ok (some (3, 8)))
    × (rgb_close_method keys transitions m' 3 ≡ ok (some opret_first))
rgb_embed-stores_example =
    rgb_embed-stores key_laws transition_laws psbt [] [] info (3 ∷ 8 ∷ []) embedded tt tt
      (record { transition = refl; method = refl }) refl

abbrev bundle : TransitionBundle (ℕ × ℕ)
bundle = record {
  close_method = opret_first;
  input_map = (0, 3) ∷ [];
  known_transitions = (3, (3, 8)) ∷ [];
}

abbrev fascia : Fascia ℕ (AnchorSet ℕ ℕ) (List (ℕ × List (TransitionBundle (ℕ × ℕ))))
fascia = record { witness = 0; anchor = opret 2; bundles = (8, bundle ∷ []) ∷ [] }

committed :
    (rgb_commit keys transitions bundles false commits
      (rgb_embed keys transitions psbt (info ∷ [])).0).1
    ≡ ok fascia
unfolding rgb_embed embed_one embed_inputs set_rgb_consumer set_by_consumer rgb_consumer read_opid
    push_rgb_transition prepare rgb_close_method parse_method rgb_transition parse_transition
    merge_with rgb_transition_key rgb_closing_methods_key rgb_in_consumed_by_key rgb_commit
    rgb_bundles_to_mpc rgb_bundles bundles_of contract_bundle group_all group_one make_bundles
    rgb_contract_ids rgb_contract_consumers consumers_from commit_all commit_one change_first
    methods_of union_all commit_methods
committed = refl

rgb_commit-anchor_example :
    (has_tapret fascia.anchor
      ≡ uses tapret_first (pairs keys transitions bundles false fascia.bundles))
    × (has_opret fascia.anchor
        ≡ uses opret_first (pairs keys transitions bundles false fascia.bundles))
rgb_commit-anchor_example =
    rgb_commit-anchor keys transitions bundles false commits commit_laws
      (rgb_embed keys transitions psbt (info ∷ [])).0 fascia committed

fits_both :
    (P : TransitionBundle (ℕ × ℕ) → Type 0) (first : TransitionBundle (ℕ × ℕ))
    (second : Option (TransitionBundle (ℕ × ℕ)))
    → P first
    → ((b : TransitionBundle (ℕ × ℕ)) → second ≡ some b → P b)
    → All P (bundles.iter (bundles.with first second))
fits_both P first none p q = (p, tt)
fits_both P first (some b) p q = (p, (q b refl, tt))

abbrev bundle_laws : BundleLaws bundles
bundle_laws = record { iter-with = fits_both }

rgb_commit-Fits_example :
    All
      (λ e.
        All
          (Fits keys transitions bundles false
            (rgb_embed keys transitions psbt (info ∷ [])).0.proprietary)
          (bundles.iter e.1))
      fascia.bundles
rgb_commit-Fits_example =
    rgb_commit-Fits keys transitions bundles false commits bundle_laws commit_laws
      (rgb_embed keys transitions psbt (info ∷ [])).0 fascia committed
