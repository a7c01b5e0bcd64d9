-- ===== src/Cli/Recomposes.antt =====
-- What is described as composed is composed by `compose` of `issue` of cli/src/command.rs.
use rgb.Base.{ℕ, ◌+◌, ◌≡◌, refl, ap, inl, inr, String, Option, List, [], ◌∷◌, ok}
use rgb.Cli.Composed.{IsRun, no_entry, entry, IsGlobal, IsAssigned, IsPart, IsNamed, IsComposed}
use rgb.Cli.Env.{Env}
use rgb.Cli.Genesis.{
  IssueApi, Issued, compose, add_global, add_globals, add_owned, add_assignment, add_assignments,
  optional, or_by_id,
}

module _ (env : Env) {ValidContract : Type 0} (api : IssueApi env ValidContract) where
  open env use {Stock}
  open api use {Yaml, SchemaIfaces, Iface, IfaceImpl, Types, Builder}

  module _ (schema_ifaces : SchemaIfaces) (iimpl : IfaceImpl) where
    IsGlobal-add_global :
        (types : Types) (n : ℕ) (b b' : Builder) (x : Yaml × Yaml)
        → IsGlobal env api schema_ifaces iimpl types n b x b'
        → add_global env api schema_ifaces iimpl types b x ≡ ok b'
    unfolding add_global
    IsGlobal-add_global types n b b' (key, val) g =
        rw (g.is_name, g.of_type, g.has_sem, g.typifies, g.serializes, g.is_field, g.added) refl

    IsRun-add_globals :
        (types : Types) (n : ℕ) (b b' : Builder) (entries : List (Yaml × Yaml))
        → IsRun (IsGlobal env api schema_ifaces iimpl types) n b entries b'
        → add_globals env api schema_ifaces iimpl types b entries ≡ ok b'
    unfolding add_globals
    IsRun-add_globals types n b b' [] (no_entry k c) = refl
    IsRun-add_globals types n b b' (x ∷ xs) (entry k c m d y ys g run) =
        rw (IsGlobal-add_global types n b m x g) (IsRun-add_globals types (n + 1) m b' xs run)

    IsAssigned-add_assignment :
        (draw : ℕ) (b b' : Builder) (x : Yaml × Yaml)
        → IsAssigned env api schema_ifaces iimpl draw b x b'
        → add_assignment env api schema_ifaces iimpl draw b x ≡ ok b'
    unfolding add_assignment add_owned
    IsAssigned-add_assignment draw b b' (key, val) a =
        rw
          (
            a.is_name, a.of_type, a.is_fungible, a.maps, a.has_seal, a.is_text, a.parses,
            a.is_field, a.has_amount, a.is_amount, a.added,
          )
          refl

    IsRun-add_assignments :
        (draw : ℕ) (b b' : Builder) (entries : List (Yaml × Yaml))
        → IsRun (IsAssigned env api schema_ifaces iimpl) draw b entries b'
        → add_assignments env api schema_ifaces iimpl draw b entries ≡ ok b'
    unfolding add_assignments
    IsRun-add_assignments draw b b' [] (no_entry k c) = refl
    IsRun-add_assignments draw b b' (x ∷ xs) (entry k c m d y ys a run) =
        rw (IsAssigned-add_assignment draw b m x a) (IsRun-add_assignments (draw + 1) m b' xs run)

  IsPart-optional :
      (step : ℕ → Builder → Yaml × Yaml → Builder → Type 0) (part : Option Yaml) (b b' : Builder)
      (add : List (Yaml × Yaml) → Issued env api Builder)
      → ((entries : List (Yaml × Yaml)) → IsRun step 0 b entries b' → add entries ≡ ok b')
      → IsPart env api step part b b'
      → optional env api part b add ≡ ok b'
  IsPart-optional step part b b' add run (inl (absent, same)) = rw (absent) (ap ok same)
  IsPart-optional step part b b' add run (inr (value, entries, there, maps, runs)) =
      rw (there, maps) (run entries runs)

  IsNamed-or_by_id :
      (s : Stock) (name : String) (i : Iface)
      → IsNamed env api s name i
      → or_by_id env api s name (api.iface_by_name s name) ≡ ok i
  IsNamed-or_by_id s name i (inl found) = rw (found) refl
  IsNamed-or_by_id s name i (inr (e, id, fails, parses, found)) = rw (fails, parses, found) refl

  -- a contract that is made of all of a YAML is what is composed of it
  pub IsComposed-compose :
      (s : Stock) (schema_id : ℕ) (issuer : String) (yaml : Yaml) (c : ValidContract)
      → IsComposed env api s schema_id issuer yaml c
      → compose env api s schema_id issuer yaml ≡ ok c
  unfolding compose
  IsComposed-compose s schema_id issuer yaml c h =
      let globals =
        IsPart-optional _ (api.get h.code "globals") h.b0 h.b1
          (add_globals env api h.schema_ifaces h.iimpl (api.type_system h.b0) h.b0)
          (IsRun-add_globals h.schema_ifaces h.iimpl (api.type_system h.b0) 0 h.b0 h.b1)
          h.globals in
      let owned =
        IsPart-optional _ (api.get h.code "assignments") h.b1 h.b2
          (add_assignments env api h.schema_ifaces h.iimpl 0 h.b1)
          (IsRun-add_assignments h.schema_ifaces h.iimpl 0 h.b1 h.b2) h.assignments in
      rw
        (
          h.maps,
          h.has_interface,
          h.is_text,
          h.has_schema,
          h.is_name,
          IsNamed-or_by_id s h.iface_name h.iface h.is_iface,
          h.implements,
          h.starts,
          globals,
          owned,
          h.issues,
        )
        refl
