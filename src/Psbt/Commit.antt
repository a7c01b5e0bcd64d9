-- ===== src/Psbt/Commit.antt =====
-- `rgb_commit` of psbt/src/lib.rs: the commitments and the anchors of a PSBT's transitions.
use rgb.Base.{
  ℕ, Bool, true, false, ◌||◌, ◌≡◌, Option, none, some, List, [], ◌∷◌, Result, ok, err, panic,
  map_err, ◌>>=◌,
}
use rgb.Descriptor.Keychain.{CloseMethod, opret_first, tapret_first}
use rgb.Psbt.Api.{KeyApi}
use rgb.Psbt.Bundles.{Psbt, TransitionBundle, BundleApi, Error, pairs, rgb_bundles_to_mpc}
use rgb.Psbt.Transition.{TransitionApi, method_eq, no_contracts}

pub data CommitError (R D : Type 0) : Type 0 where
  rgb_error : R → CommitError R D
  dbc_error : D → CommitError R D

-- `AnchorSet` of rgbstd
pub data AnchorSet (T O : Type 0) : Type 0 where
  tapret : T → AnchorSet T O
  opret : O → AnchorSet T O
  double : T → O → AnchorSet T O

pub record Fascia (Witness Anchor Bundles : Type 0) : Type 0 where
  pub witness : Witness
  pub anchor : Anchor
  pub bundles : Bundles

-- Sets of close methods, deterministic commitments, and the witness transaction.
pub record CommitApi (Output : Type 0) : Type 1 where
  pub CloseMethodSet : Type 0
  pub from_method : CloseMethod → CloseMethodSet
  pub union : CloseMethodSet → CloseMethodSet → CloseMethodSet
  pub has_tapret_first : CloseMethodSet → Bool
  pub has_opret_first : CloseMethodSet → Bool
  pub DbcError : Type 0
  pub Tapret : Type 0
  pub Opret : Type 0
  pub Witness : Type 0
  pub dbc_commit_tapret : Psbt Output → Psbt Output × Result DbcError Tapret
  pub dbc_commit_opret : Psbt Output → Psbt Output × Result DbcError Opret
  -- `XPubWitness::Bitcoin(PubWitness::with(to_unsigned_tx().finalize()))`
  pub pub_witness : Psbt Output → Witness

pub record CommitLaws {Output : Type 0} (api : CommitApi Output) : Type 1 where
  pub tapret-from :
      (m : CloseMethod) → api.has_tapret_first (api.from_method m) ≡ method_eq tapret_first m
  pub opret-from :
      (m : CloseMethod) → api.has_opret_first (api.from_method m) ≡ method_eq opret_first m
  pub tapret-union :
      (a b : api.CloseMethodSet)
      → api.has_tapret_first (api.union a b) ≡ (api.has_tapret_first a || api.has_tapret_first b)
  pub opret-union :
      (a b : api.CloseMethodSet)
      → api.has_opret_first (api.union a b) ≡ (api.has_opret_first a || api.has_opret_first b)

module _ (keys : KeyApi) (api : TransitionApi) (bundles : BundleApi api.Transition api.MpcError)
    (reversed : Bool) (commits : CommitApi bundles.Output) where
  open commits use {
    CloseMethodSet, from_method, union, has_tapret_first, has_opret_first, DbcError, Tapret, Opret,
    Witness, dbc_commit_tapret, dbc_commit_opret, pub_witness,
  }

  abbrev pub Bundles : Type 0
  Bundles = List (ℕ × bundles.Dichotomy)

  abbrev pub CommitResult : Type 0 → Type 0
  CommitResult A = Result (CommitError (Error keys api bundles reversed) DbcError) A

  -- `reduce(|methods, method| methods | method)` from the first method on
  unfoldable pub union_all :
      CloseMethodSet → List (ℕ × TransitionBundle api.Transition) → CloseMethodSet
  union_all methods [] = methods
  union_all methods ((id, b) ∷ rest) = union_all (union methods (from_method b.close_method)) rest

  unfoldable pub methods_of : List (ℕ × TransitionBundle api.Transition) → Option CloseMethodSet
  unfolding union_all
  methods_of [] = none
  methods_of ((id, b) ∷ rest) = some (union_all (from_method b.close_method) rest)

  -- a commitment that is made if the methods ask for it
  abbrev pub when :
      {A : Type 0}
      → Bool
      → (Psbt bundles.Output → Psbt bundles.Output × Result DbcError A)
      → Psbt bundles.Output
      → Psbt bundles.Output × CommitResult (Option A)
  when false commit p = (p, ok none)
  when true commit p = let (p', r) = commit p in (p', map_err (r >>= λ a. ok (some a)) dbc_error)

  abbrev pub anchor_of : Option Tapret → Option Opret → CommitResult (AnchorSet Tapret Opret)
  anchor_of none none = err (rgb_error no_contracts)
  anchor_of (some t) none = ok (tapret t)
  anchor_of none (some o) = ok (opret o)
  anchor_of (some t) (some o) = ok (double t o)

  -- the two commitments, tapret first, and what is made of them
  unfoldable pub commit_methods :
      Psbt bundles.Output
      → CloseMethodSet
      → Bundles
      → Psbt bundles.Output × CommitResult (Fascia Witness (AnchorSet Tapret Opret) Bundles)
  commit_methods p methods bs =
      let (p1, r1) = when (has_tapret_first methods) dbc_commit_tapret p in
      elim r1 [
        | err e ↦ (p1, err e)
        | panic ↦ (p1, panic)
        | ok t ↦
            let (p2, r2) = when (has_opret_first methods) dbc_commit_opret p1 in
            (
              p2,
              do
                o ← r2
                anchor ← anchor_of t o
                ok (record { witness = pub_witness p2; anchor = anchor; bundles = bs }),
            )
      ]

  abbrev pub commit_some :
      Psbt bundles.Output
      → Option CloseMethodSet
      → Bundles
      → Psbt bundles.Output × CommitResult (Fascia Witness (AnchorSet Tapret Opret) Bundles)
  commit_some p none bs = (p, err (rgb_error no_contracts))
  commit_some p (some methods) bs = commit_methods p methods bs

  abbrev pub after_mpc :
      Psbt bundles.Output
      → Result (Error keys api bundles reversed) Bundles
      → Psbt bundles.Output × CommitResult (Fascia Witness (AnchorSet Tapret Opret) Bundles)
  after_mpc p (err e) = (p, err (rgb_error e))
  after_mpc p panic = (p, panic)
  after_mpc p (ok bs) = commit_some p (methods_of (pairs keys api bundles reversed bs)) bs

  unfoldable pub rgb_commit :
      Psbt bundles.Output
      → Psbt bundles.Output × CommitResult (Fascia Witness (AnchorSet Tapret Opret) Bundles)
  unfolding methods_of commit_methods
  rgb_commit p = let (p', r) = rgb_bundles_to_mpc keys api bundles reversed p in after_mpc p' r

  -- `rgb_extract` is `todo!`
  unfoldable pub rgb_extract : {E A : Type 0} → Psbt bundles.Output → Result E A
  rgb_extract p = panic
