-- ===== src/Cli/Composes.antt =====
-- `compose`, the first part of `issue` of cli/src/command.rs, against its description.
use mathlib.Core.Path.{subst}
use rgb.Cli.Composed.{IsRun, no_entry, entry, IsGlobal, IsAssigned, IsPart, IsNamed, IsComposed}
use rgb.Base.{
  ℕ, ◌+◌, ◌≡◌, inl, inr, refl, ap, ◌∙◌, String, Option, none, some, List, [], ◌∷◌, Result, ok, err,
  panic, arith, >>=-eq-ok, expect-bind, expect-ok, or-bind, convert-bind,
}
use rgb.Base.Key.{string_key}
use rgb.Base.Map.{lookup}
use rgb.Chain.{bitcoin}
use rgb.Cli.Env.{Env}
use rgb.Cli.Genesis.{
  StateType, fungible, void, structured, attachment, IssueApi, Issued, compose, add_global,
  add_globals, add_owned, add_assignment, add_assignments, optional, or_by_id,
}
use rgb.Cli.Keeps.{map_err-ok}

module _ (env : Env) {ValidContract : Type 0} (api : IssueApi env ValidContract) where
  open env use {Stock, StockError}
  open api use {Yaml, SchemaIfaces, Iface, IfaceImpl, Types, Builder}

  module _ (schema_ifaces : SchemaIfaces) (iimpl : IfaceImpl) where
    add_global-IsGlobal :
        (types : Types) (n : ℕ) (b b' : Builder) (x : Yaml × Yaml)
        → add_global env api schema_ifaces iimpl types b x ≡ ok b'
        → IsGlobal env api schema_ifaces iimpl types n b x b'
    unfolding add_global
    add_global-IsGlobal types n b b' (key, val) h =
        let (name, is_name, h1) = expect-bind (api.as_str key) _ b' h in
        let (type_id, of_type, h2) = expect-bind (lookup name (api.global_state iimpl)) _ b' h1 in
        let (sem, has_sem, h3) = expect-bind (api.sem_id schema_ifaces type_id) _ b' h2 in
        let (typed, typifies, h4) = expect-bind (api.typify types val sem) _ b' h3 in
        let (serialized, serializes, h5) = expect-bind (api.strict_serialize types typed) _ b' h4 in
        let (field, is_field, h6) = expect-bind (api.field_name name) _ b' h5 in
        record {
          name = name;
          is_name = is_name;
          type_id = type_id;
          of_type = of_type;
          sem = sem;
          has_sem = has_sem;
          typed = typed;
          typifies = typifies;
          serialized = serialized;
          serializes = serializes;
          field = field;
          is_field = is_field;
          added = expect-ok (api.add_global_state b field serialized) b' h6;
        }

    add_globals-IsRun :
        (types : Types) (n : ℕ) (b b' : Builder) (entries : List (Yaml × Yaml))
        → add_globals env api schema_ifaces iimpl types b entries ≡ ok b'
        → IsRun (IsGlobal env api schema_ifaces iimpl types) n b entries b'
    unfolding add_globals
    add_globals-IsRun types n b b' [] h =
        subst (IsRun (IsGlobal env api schema_ifaces iimpl types) n b []) (ground arith)
          (no_entry n b)
    add_globals-IsRun types n b b' (x ∷ xs) h =
        let (m, first, rest) = >>=-eq-ok (add_global env api schema_ifaces iimpl types b x) _ h in
        entry n b m b' x xs (add_global-IsGlobal types n b m x first)
          (add_globals-IsRun types (n + 1) m b' xs rest)

    add_owned-fungible :
        (b b' : Builder) (field : String) (seal : api.GenesisSeal) (assign : List (Yaml × Yaml))
        (state : StateType)
        → add_owned env api b field seal assign state ≡ ok b'
        → (state ≡ fungible)
          × (value : Yaml) × (amount : ℕ) × (api.get assign "amount" ≡ some value)
          × (api.as_u64 value ≡ some amount)
          × (api.add_fungible_state b field (bitcoin seal) amount ≡ some b')
    unfolding add_owned
    add_owned-fungible b b' field seal assign void h = absurd (ground arith)
    add_owned-fungible b b' field seal assign structured h = absurd (ground arith)
    add_owned-fungible b b' field seal assign attachment h = absurd (ground arith)
    add_owned-fungible b b' field seal assign fungible h =
        let (value, has, h1) = expect-bind (api.get assign "amount") _ b' h in
        let (amount, is_amount, h2) = expect-bind (api.as_u64 value) _ b' h1 in
        (refl, value, amount, has, is_amount, expect-ok _ b' h2)

    add_assignment-IsAssigned :
        (draw : ℕ) (b b' : Builder) (x : Yaml × Yaml)
        → add_assignment env api schema_ifaces iimpl draw b x ≡ ok b'
        → IsAssigned env api schema_ifaces iimpl draw b x b'
    unfolding add_assignment
    add_assignment-IsAssigned draw b b' (key, val) h =
        let (name, is_name, h1) = expect-bind (api.as_str key) _ b' h in
        let (type_id, of_type, h2) = expect-bind (lookup name (api.assignments iimpl)) _ b' h1 in
        let (state, has_state, h3) = expect-bind (api.state_type schema_ifaces type_id) _ b' h2 in
        let (assign, maps, h4) = expect-bind (api.as_mapping val) _ b' h3 in
        let (seal_value, has_seal, h5) = expect-bind (api.get assign "seal") _ b' h4 in
        let (text, is_text, h6) = expect-bind (api.as_str seal_value) _ b' h5 in
        let (seal, parses, h7) = expect-bind (api.parse_seal text) _ b' h6 in
        let (field, is_field, h8) = expect-bind (api.field_name name) _ b' h7 in
        let (is_fungible, value, amount, has_amount, is_amount, added) =
          add_owned-fungible b b' field (api.new_random seal draw) assign state h8 in
        record {
          name = name;
          is_name = is_name;
          type_id = type_id;
          of_type = of_type;
          is_fungible = has_state ∙ ap some is_fungible;
          assign = assign;
          maps = maps;
          seal_value = seal_value;
          has_seal = has_seal;
          text = text;
          is_text = is_text;
          seal = seal;
          parses = parses;
          field = field;
          is_field = is_field;
          amount_value = value;
          has_amount = has_amount;
          amount = amount;
          is_amount = is_amount;
          added = added;
        }

    add_assignments-IsRun :
        (draw : ℕ) (b b' : Builder) (entries : List (Yaml × Yaml))
        → add_assignments env api schema_ifaces iimpl draw b entries ≡ ok b'
        → IsRun (IsAssigned env api schema_ifaces iimpl) draw b entries b'
    unfolding add_assignments
    add_assignments-IsRun draw b b' [] h =
        subst (IsRun (IsAssigned env api schema_ifaces iimpl) draw b []) (ground arith)
          (no_entry draw b)
    add_assignments-IsRun draw b b' (x ∷ xs) h =
        let (m, first, rest) =
          >>=-eq-ok (add_assignment env api schema_ifaces iimpl draw b x) _ h in
        entry draw b m b' x xs (add_assignment-IsAssigned draw b m x first)
          (add_assignments-IsRun (draw + 1) m b' xs rest)

  optional-IsPart :
      (step : ℕ → Builder → Yaml × Yaml → Builder → Type 0) (part : Option Yaml) (b b' : Builder)
      (add : List (Yaml × Yaml) → Issued env api Builder)
      → ((entries : List (Yaml × Yaml)) → add entries ≡ ok b' → IsRun step 0 b entries b')
      → optional env api part b add ≡ ok b'
      → IsPart env api step part b b'
  optional-IsPart step none b b' add run h = inl (refl, ground arith)
  optional-IsPart step (some value) b b' add run h =
      let (entries, maps, h1) = expect-bind (api.as_mapping value) _ b' h in
      inr (value, entries, refl, maps, run entries h1)

  or_by_id-IsNamed :
      (s : Stock) (name : String) (i : Iface) (found : Result env.StockError Iface)
      → api.iface_by_name s name ≡ found
      → or_by_id env api s name found ≡ ok i
      → IsNamed env api s name i
  or_by_id-IsNamed s name i (ok j) e h = inl (e ∙ ground arith)
  or_by_id-IsNamed s name i panic e h = absurd (ground arith)
  or_by_id-IsNamed s name i (err x) e h =
      let (id, parses, h1) = convert-bind (api.parse_iface_id name) _ _ i h in
      inr (x, id, e, parses, map_err-ok _ _ i h1)

  -- what is composed of a YAML is made of all of it
  pub compose-IsComposed :
      (s : Stock) (schema_id : ℕ) (issuer : String) (yaml : Yaml) (c : ValidContract)
      → compose env api s schema_id issuer yaml ≡ ok c
      → IsComposed env api s schema_id issuer yaml c
  unfolding compose
  compose-IsComposed s schema_id issuer yaml c h =
      let (code, maps, h1) = expect-bind (api.as_mapping yaml) _ c h in
      let (named, has_interface, h2) = expect-bind (api.get code "interface") _ c h1 in
      let (text, is_text, h3) = expect-bind (api.as_str named) _ c h2 in
      let (schema_ifaces, has_schema, h4) = convert-bind (api.schema s schema_id) _ _ c h3 in
      let (iface_name, is_name, h5) = expect-bind (env.type_name text) _ c h4 in
      let (i, found, h6) =
        >>=-eq-ok (or_by_id env api s iface_name (api.iface_by_name s iface_name)) _ h5 in
      let (iimpl, implements, h7) =
        or-bind (api.iface_impl schema_ifaces (api.iface_id i)) _ _ c h6 in
      let (b0, starts, h8) =
        convert-bind (api.contract_builder s issuer schema_id (api.iface_id i)) _ _ c h7 in
      let types = api.type_system b0 in
      let add1 = add_globals env api schema_ifaces iimpl types b0 in
      let (b1, globals, h9) = >>=-eq-ok (optional env api (api.get code "globals") b0 add1) _ h8 in
      let add2 = add_assignments env api schema_ifaces iimpl 0 b1 in
      let (b2, owned, h10) =
        >>=-eq-ok (optional env api (api.get code "assignments") b1 add2) _ h9 in
      record {
        code = code;
        maps = maps;
        named = named;
        has_interface = has_interface;
        text = text;
        is_text = is_text;
        schema_ifaces = schema_ifaces;
        has_schema = has_schema;
        iface_name = iface_name;
        is_name = is_name;
        iface = i;
        is_iface = or_by_id-IsNamed s iface_name i (api.iface_by_name s iface_name) refl found;
        iimpl = iimpl;
        implements = implements;
        b0 = b0;
        starts = starts;
        b1 = b1;
        globals =
            optional-IsPart (IsGlobal env api schema_ifaces iimpl types) (api.get code "globals") b0
              b1 add1 (add_globals-IsRun schema_ifaces iimpl types 0 b0 b1) globals;
        b2 = b2;
        assignments =
            optional-IsPart (IsAssigned env api schema_ifaces iimpl) (api.get code "assignments") b1
              b2 add2 (add_assignments-IsRun schema_ifaces iimpl 0 b1 b2) owned;
        issues = map_err-ok (api.issue_contract b2) _ c h10;
      }
