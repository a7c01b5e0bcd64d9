-- ===== src/Psbt/Bundles.antt =====
-- `rgb_bundles` and `rgb_bundles_to_mpc` of psbt/src/rgb.rs: the transitions of a PSBT grouped by
-- contract and close method, and their commitment into the outputs.
use mathlib.Core.List.{reverse}
use rgb.Base.{
  ℕ, Bool, true, false, ◌&&◌, not, Option, none, some, List, [], ◌∷◌, ◌++◌, map, Result, ok, err,
  panic, map_err, ok_or, ◌>>=◌, ◌>>◌, if◌then◌else◌, leb, length, is_empty,
}
use rgb.Base.Key.{nat_key}
use rgb.Base.Map.{lookup, insert}
use rgb.Descriptor.Keychain.{CloseMethod, opret_first, tapret_first}
use rgb.Psbt.Key.{KeyMap}
use rgb.Psbt.Api.{Input, KeyApi}
use rgb.Psbt.Inputs.{rgb_contract_ids, rgb_contract_consumers}
use rgb.Psbt.Methods.{method_key}
use rgb.Psbt.Transition.{
  Error as TransitionError, TransitionApi, rgb_transition, rgb_close_method, no_close_method,
  no_transitions, no_contracts, invalid_contract_id, too_many_transitions_in_bundle, no_host_output,
  mpc,
}

-- a `Psbt`, as far as RGB data are read from it and written to it
pub record Psbt (Output : Type 0) : Type 0 where
  pub inputs : List Input
  pub outputs : List Output
  pub proprietary : KeyMap

pub record TransitionBundle (T : Type 0) : Type 0 where
  pub close_method : CloseMethod
  pub input_map : List (ℕ × ℕ)
  pub known_transitions : List (ℕ × T)

-- Bundles, their ids, and the outputs that host commitments. `has_room` says whether a confined map
-- of so many entries takes one more.
pub record BundleApi (T MpcError : Type 0) : Type 1 where
  pub Dichotomy : Type 0
  pub with : TransitionBundle T → Option (TransitionBundle T) → Dichotomy
  pub iter : Dichotomy → List (TransitionBundle T)
  pub bundle_id : TransitionBundle T → ℕ
  pub has_room : ℕ → Bool
  pub Output : Type 0
  pub is_tapret_host : Output → Bool
  pub is_opret_host : Output → Bool
  pub set_mpc_message : Output → ℕ → ℕ → Output × Result MpcError (Unit {0})

-- the two maps of a contract, by close method
pub record Groups (T : Type 0) : Type 0 where
  pub input_map : List (CloseMethod × List (ℕ × ℕ))
  pub known_transitions : List (CloseMethod × List (ℕ × T))

-- `outputs_mut().find(…)` and a change of what it finds; `none` if it finds nothing
unfoldable pub change_first {ℓ} :
    {A : Type 0} {R : Type ℓ} → (A → Bool) → (A → A × R) → List A → Option (List A × R)
change_first p f [] = none
change_first p f (x ∷ xs) =
    let rest = change_first p f xs in
    elim (p x) [
      | true ↦ let (y, r) = f x in some (y ∷ xs, r)
      | false ↦ elim rest [ none ↦ none | some (ys, r) ↦ some (x ∷ ys, r) ]
    ]

abbrev pub or_empty {ℓ} : {A : Type ℓ} → Option (List A) → List A
or_empty none = []
or_empty (some xs) = xs

-- A hash map of at most two entries is read in one order or in the other.
abbrev pub hash_order {ℓ} : {A : Type ℓ} → Bool → List A → List A
hash_order reversed xs = if reversed then reverse xs else xs

module _ (keys : KeyApi) (api : TransitionApi) (bundles : BundleApi api.Transition api.MpcError)
    (reversed : Bool) where
  open api use {Transition, max_u24}
  open bundles use {
    Dichotomy, with, iter, bundle_id, has_room, Output, is_tapret_host, is_opret_host,
    set_mpc_message,
  }

  abbrev pub Error : Type 0
  Error = TransitionError keys api

  -- `entry(method).or_default().insert(key, value)?`
  abbrev pub insert_in :
      {V : Type 0}
      → CloseMethod
      → ℕ
      → V
      → List (CloseMethod × List (ℕ × V))
      → Result Error (List (CloseMethod × List (ℕ × V)))
  insert_in method key value m =
      let inner = or_empty (lookup method m) in
      if has_room (length inner)
      then ok (insert method (insert key value inner) m)
      else err too_many_transitions_in_bundle

  abbrev pub insert_known :
      CloseMethod
      → ℕ
      → Option Transition
      → List (CloseMethod × List (ℕ × Transition))
      → Result Error (List (CloseMethod × List (ℕ × Transition)))
  insert_known method opid none known = ok known
  insert_known method opid (some t) known = insert_in method opid t known

  -- one round of the loop over the consumers of a contract
  unfoldable pub group_one : KeyMap → Groups Transition → ℕ → ℕ → Result Error (Groups Transition)
  group_one m g opid vin = do
    transition ← rgb_transition keys api m opid
    stored ← rgb_close_method keys api m opid
    method ← ok_or stored (no_close_method opid)
    input_map ← insert_in method vin opid g.input_map
    known ← insert_known method opid transition g.known_transitions
    ok (record { input_map = input_map; known_transitions = known })

  unfoldable pub group_all :
      KeyMap → Groups Transition → List (ℕ × ℕ) → Result Error (Groups Transition)
  unfolding group_one
  group_all m g [] = ok g
  group_all m g ((opid, vin) ∷ rest) = do g' ← group_one m g opid vin; group_all m g' rest

  -- the loop that makes a bundle of each close method
  unfoldable pub make_bundles :
      ℕ
      → List (CloseMethod × List (ℕ × Transition))
      → List (CloseMethod × List (ℕ × ℕ))
      → Result Error (List (TransitionBundle Transition))
  make_bundles contract_id known [] = ok []
  make_bundles contract_id known ((method, input_map) ∷ rest) = do
    let transitions = or_empty (lookup method known)
    bundle ←
        if is_empty transitions
        then err (no_transitions contract_id)
        else ok (record {
          close_method = method;
          input_map = input_map;
          known_transitions = transitions;
        })
    others ← make_bundles contract_id known rest
    ok (bundle ∷ others)

  abbrev pub dichotomy_of : ℕ → List (TransitionBundle Transition) → Result Error Dichotomy
  dichotomy_of contract_id [] = err (no_transitions contract_id)
  dichotomy_of contract_id (first ∷ []) = ok (with first none)
  dichotomy_of contract_id (first ∷ second ∷ rest) = ok (with first (some second))

  abbrev no_groups : Groups Transition
  no_groups = record { input_map = []; known_transitions = [] }

  unfoldable pub contract_bundle : KeyMap → List Input → ℕ → Result Error Dichotomy
  unfolding group_all make_bundles
  contract_bundle m inputs contract_id = do
    consumers ← map_err (rgb_contract_consumers keys inputs contract_id) (λ _. invalid_contract_id)
    g ← group_all m no_groups consumers
    list ← make_bundles contract_id g.known_transitions (hash_order reversed g.input_map)
    dichotomy_of contract_id list

  unfoldable pub bundles_of :
      KeyMap → List Input → List ℕ → List (ℕ × Dichotomy) → Result Error (List (ℕ × Dichotomy))
  unfolding contract_bundle
  bundles_of m inputs [] acc = ok acc
  bundles_of m inputs (contract_id ∷ ids) acc = do
    bundle ← contract_bundle m inputs contract_id
    bundles_of m inputs ids (insert contract_id bundle acc)

  unfoldable pub rgb_bundles : Psbt Output → Result Error (List (ℕ × Dichotomy))
  unfolding bundles_of
  rgb_bundles p = do
    ids ← map_err (rgb_contract_ids keys p.inputs) (λ _. invalid_contract_id)
    bundles_of p.proprietary p.inputs ids []

  -- `iter().flat_map(…)`: each contract with each of its bundles
  abbrev pub pairs : List (ℕ × Dichotomy) → List (ℕ × TransitionBundle Transition)
  pairs [] = []
  pairs ((id, b) ∷ rest) = map (λ bundle. (id, bundle)) (iter b) ++ pairs rest

  abbrev pub is_host : CloseMethod → Output → Bool
  is_host tapret_first output = is_tapret_host output
  is_host opret_first output = is_opret_host output

  -- one round of the loop: the message goes to the first output that hosts the method
  unfoldable pub commit_one :
      List Output → ℕ × TransitionBundle Transition → List Output × Result Error (Unit {0})
  unfolding change_first
  commit_one outputs (id, bundle) =
      elim (change_first (is_host bundle.close_method)
        (λ output. set_mpc_message output id (bundle_id bundle)) outputs) [
          | none ↦ (outputs, err (no_host_output bundle.close_method))
          | some (outputs', r) ↦ (outputs', map_err r mpc)
        ]

  unfoldable pub commit_all :
      List Output → List (ℕ × TransitionBundle Transition) → List Output × Result Error (Unit {0})
  unfolding commit_one
  commit_all outputs [] = (outputs, ok tt)
  commit_all outputs (pair ∷ rest) =
      let (outputs', r) = commit_one outputs pair in
      elim r [
        | ok _ ↦ commit_all outputs' rest
        | err e ↦ (outputs', err e)
        | panic ↦ (outputs', panic)
      ]

  abbrev pub confined : List (ℕ × Dichotomy) → Result Error (List (ℕ × Dichotomy))
  confined map = if not (is_empty map) && leb (length map) max_u24 then ok map else err no_contracts

  abbrev pub to_mpc :
      Psbt Output
      → Result Error (List (ℕ × Dichotomy))
      → Psbt Output × Result Error (List (ℕ × Dichotomy))
  to_mpc p (err e) = (p, err e)
  to_mpc p panic = (p, panic)
  to_mpc p (ok m) =
      let (outputs, r) = commit_all p.outputs (pairs m) in
      (record p { outputs = outputs }, r >> confined m)

  unfoldable pub rgb_bundles_to_mpc :
      Psbt Output → Psbt Output × Result Error (List (ℕ × Dichotomy))
  unfolding rgb_bundles commit_all
  rgb_bundles_to_mpc p = to_mpc p (rgb_bundles p)
