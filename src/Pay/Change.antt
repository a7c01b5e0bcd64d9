-- ===== src/Pay/Change.antt =====
-- The change output in `construct_psbt_rgb` of src/pay.rs, while the outputs are put in order.
use mathlib.Core.Path.{subst}
use rgb.Base.{
  Option-cases, ℕ, zero, suc, ◌≡◌, refl, sym, ap, ◌∙◌, inl, inr, Bool, true, ◌&&◌, ◌==◌, not,
  Option, none, some, List, [], ◌∷◌, Result, ok, err, panic, arith, any, find, get_elem?,
  Bool-cases, >>=-eq-ok, expect_ok, ==_iff,
}
use rgb.Pay.Api.{Beneficiary, PayApi}
use rgb.Pay.Arrange.{
  Meta, beneficiary_script, is_script, found_host, mark_tapret, change_script, find_change, is_vout,
  beneficiary_vout, sorted, arrange,
}
use rgb.Pay.Inputs.{Composed}
use rgb.Psbt.Bundles.{Psbt, change_first}

-- A script equals itself; to make an output a host keeps its script, and to sort the outputs keeps
-- which scripts there are.
pub record OutputLaws {Output Transition CloseMethodSet : Type 0}
    (api : PayApi Output Transition CloseMethodSet) : Type 1 where
  pub same_refl : (s : api.Script) → api.same_script s s ≡ true
  pub script-host : (o : Output) → api.script (api.set_tapret_host o).0 ≡ api.script o
  pub any-sort :
      (f : Output → Bool) (p : Psbt Output) (s : api.Script)
      → (api.sort_outputs_by f p).1 ≡ ok tt
      → any (λ o. api.same_script (api.script o) s) (api.sort_outputs_by f p).0.outputs
        ≡ any (λ o. api.same_script (api.script o) s) p.outputs

module _ {Output Transition CloseMethodSet : Type 0} (api : PayApi Output Transition CloseMethodSet)
    (debug : Bool) (laws : OutputLaws api) where
  open api use {Script, script, same_script, vout, HostError, set_tapret_host}

  ok_inj : {E A : Type 0} {a b : A} → ◌≡◌ {A = Result E A} (ok a) (ok b) → a ≡ b
  ok_inj e = cc

  find-any :
      (q : Output → Bool) (os : List Output) → any q os ≡ true → (o : Output) × (find q os ≡ some o)
  find-any q [] h = absurd (ground arith)
  find-any q (x ∷ os) h = elim (Bool-cases (q x)) [
    | inl here ↦ (x, ground arith)
    | inr later ↦ let (o, e) = find-any q os (ground arith) in (o, ground arith)
  ]

  any-find :
      (q r : Output → Bool) (os : List Output) (o : Output)
      → find q os ≡ some o
      → r o ≡ true
      → any (λ x. q x && r x) os ≡ true
  any-find q r [] o h g = cc
  any-find q r (x ∷ os) o h g = elim (Bool-cases (q x)) [
    | inl here ↦ let at : x ≡ o = ground arith in let g' : r x ≡ true = rw at g in ground arith
    | inr later ↦ ground (arith, any-find q r os o)
  ]

  -- the script at an index, which the marking of a host keeps
  abbrev script_at : List Output → ℕ → Option Script
  script_at [] i = none
  script_at (x ∷ os) zero = some (script x)
  script_at (x ∷ os) (suc i) = script_at os i

  marked_scripts :
      (q : Output → Bool) (os os' : List Output) (r : Result HostError (Unit {0})) (i : ℕ)
      → change_first q set_tapret_host os ≡ some (os', r)
      → script_at os' i ≡ script_at os i
  unfolding change_first
  marked_scripts q [] os' r i h = absurd (ground arith)
  marked_scripts q (x ∷ os) os' r zero h = ground (arith, laws.script-host x)
  marked_scripts q (x ∷ os) os' r (suc i) h = elim (Bool-cases (q x)) [
    | inl here ↦ ground arith
    | inr later ↦ elim (Option-cases (change_first q set_tapret_host os)) [
      | inl absent ↦ absurd (ground arith)
      | inr (t, e) ↦
          let at : os' ≡ x ∷ t.0 = ground arith in
          ap (λ l. script_at l (suc i)) at ∙ marked_scripts q os t.0 t.1 i e
    ]
  ]

  found_scripts :
      (q : Output → Bool) (os os' : List Output) (i : ℕ)
      (t : Option (List Output × Result HostError (Unit {0})))
      → change_first q set_tapret_host os ≡ t
      → found_host api debug os t ≡ ok os'
      → script_at os' i ≡ script_at os i
  found_scripts q os os' i none e g = ap (λ l. script_at l i) (sym (ok_inj g))
  found_scripts q os os' i (some (l, r)) e g =
      let (done, er, same) = >>=-eq-ok (expect_ok r) _ g in
      ap (λ l. script_at l i) (sym (ok_inj same)) ∙ marked_scripts q os l r i e

  mark_tapret-script_at :
      (b : Option Script) (os os' : List Output) (i : ℕ)
      → mark_tapret api debug b os ≡ ok os'
      → script_at os' i ≡ script_at os i
  unfolding mark_tapret
  mark_tapret-script_at b os os' i h =
      let q : Output → Bool =
        λ o. api.is_p2tr (script o) && not (is_script api debug (script o) b) in
      found_scripts q os os' i (change_first q set_tapret_host os) refl h

  elem-script_at :
      (os : List Output) (c : ℕ)
      → elim (get_elem? os c) [ none ↦ none | some o ↦ some (script o) ] ≡ script_at os c
  elem-script_at [] c = refl
  elem-script_at (x ∷ os) zero = refl
  elem-script_at (x ∷ os) (suc c) = elem-script_at os c

  change_script-script_at :
      (meta : Meta api debug) (os : List Output) (c : ℕ)
      → meta.change_vout ≡ some c
      → change_script api debug meta os ≡ script_at os c
  unfolding change_script
  change_script-script_at meta os c h = rw h (elem-script_at os c)

  any-script_at :
      (os : List Output) (i : ℕ) (s : Script)
      → script_at os i ≡ some s
      → any (λ x. same_script (script x) s) os ≡ true
  any-script_at [] i s h = absurd (ground arith)
  any-script_at (x ∷ os) zero s h =
      let at : script x ≡ s = ground arith in
      let g : same_script (script x) s ≡ true = rw at (laws.same_refl s) in ground arith
  any-script_at (x ∷ os) (suc i) s h = ground (arith, any-script_at os i s)

  -- the loop finds an output with the script, if there is one
  find_change-any :
      (meta : Meta api debug) (os : List Output) (s : Script)
      → any (λ x. same_script (script x) s) os ≡ true
      → any
          (λ x.
            same_script (script x) s
            && is_vout api debug (vout x) (find_change api debug (some s) meta os).change_vout)
          os
        ≡ true
  unfolding find_change
  find_change-any meta os s h =
      let (o, e) = find-any (λ x. same_script (script x) s) os h in
      let set : (find_change api debug (some s) meta os).change_vout ≡ some (vout o) =
        rw (e, find_change) refl in
      rw set (
        any-find (λ x. same_script (script x) s) (λ x. vout x == vout o) os o e
          ((==_iff (vout o) (vout o)).1 refl))

  expect_ok-eq-ok :
      (r : Result HostError (Unit {0})) (done : Unit {0})
      → ◌≡◌ {A = Composed api (Unit {0})} (expect_ok r) (ok done)
      → r ≡ ok tt
  expect_ok-eq-ok (ok _) done h = refl
  expect_ok-eq-ok (err e) done h = absurd (ground arith)
  expect_ok-eq-ok panic done h = absurd (ground arith)

  -- If the PSBT of the wallet has its change in an output, then after the outputs have been put in
  -- order the change number is that of an output with the same script.
  pub arrange-change :
      (p p' : Psbt Output) (meta meta' : Meta api debug) (b : Beneficiary api.Secret api.Address)
      (v : Option ℕ) (c : ℕ) (s : Script)
      → meta.change_vout ≡ some c
      → change_script api debug meta p.outputs ≡ some s
      → arrange api debug p meta b ≡ ok (p', meta', v)
      → any
          (λ x. same_script (script x) s && is_vout api debug (vout x) meta'.change_vout)
          p'.outputs
        ≡ true
  unfolding arrange
  arrange-change p p' meta meta' b v c s at h ok_arranged =
      let (marked, em, h1) =
        >>=-eq-ok (mark_tapret api debug (beneficiary_script api debug b) p.outputs) _
          ok_arranged in
      let f : Output → Bool = λ o. not (api.is_tapret_host o) in
      let q : Psbt Output = record p { outputs = marked } in
      let (p1, es, h2) = >>=-eq-ok (sorted api debug (api.sort_outputs_by f q)) _ h1 in
      let (done, er, same) = >>=-eq-ok (expect_ok (api.sort_outputs_by f q).1) _ es in
      let kept : change_script api debug meta marked ≡ some s =
        change_script-script_at meta marked c at
        ∙ mark_tapret-script_at (beneficiary_script api debug b) p.outputs marked c em
        ∙ sym (change_script-script_at meta p.outputs c at)
        ∙ h in
      let there : any (λ x. same_script (script x) s) p1.outputs ≡ true =
        ap (λ z. any (λ x. same_script (script x) s) z.outputs) (sym (ok_inj same))
        ∙ laws.any-sort f q s (expect_ok-eq-ok (api.sort_outputs_by f q).1 done er)
        ∙ any-script_at marked c s (sym (change_script-script_at meta marked c at) ∙ kept) in
      let (w, ev, h3) =
        >>=-eq-ok
          (beneficiary_vout api debug b
            (find_change api debug (change_script api debug meta marked) meta p1.outputs)
            p1.outputs)
          _ h2 in
      subst
        (λ t.
          any (λ x. same_script (script x) s && is_vout api debug (vout x) t.1.change_vout)
            t.0.outputs
          ≡ true)
        (ok_inj h3)
        (subst
          (λ k.
            any
              (λ x.
                same_script (script x) s
                && is_vout api debug (vout x) (find_change api debug k meta p1.outputs).change_vout)
              p1.outputs
            ≡ true)
          (sym kept) (find_change-any meta p1.outputs s there))
