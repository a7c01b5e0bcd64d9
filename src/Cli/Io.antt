-- ===== src/Cli/Io.antt =====
-- Programs that change a state and may end with an error or a panic: the commands of
-- cli/src/command.rs. A value that is dropped at the end of a command is held beside the state.
use rgb.Base.{String, Bool, true, false, List, [], ◌∷◌, ◌++◌, Result, ok, err, panic, map_err}

-- what goes to the standard output, and what goes to the standard error stream
pub data Line : Type 0 where
  out : String → Line
  log : String → Line

pub record World (Disk : Type 0) : Type 0 where
  pub disk : Disk
  pub printed : List Line

abbrev pub Io : Type 0 → Type 0 → Type 0 → Type 0
Io S E A = S → S × Result E A

module _ {S E : Type 0} where
  abbrev pub pure : {A : Type 0} → A → Io S E A
  pure a s = (s, ok a)

  abbrev pub lift : {A : Type 0} → Result E A → Io S E A
  lift r s = (s, r)

  -- `?` on a result of another crate, with the conversion of its error
  abbrev pub try : {E' A : Type 0} → Result E' A → (E' → E) → Io S E A
  try r convert s = (s, map_err r convert)

  abbrev pub after : {A B : Type 0} → S × Result E A → (A → Io S E B) → S × Result E B
  after (s, ok a) next = next a s
  after (s, err e) next = (s, err e)
  after (s, panic) next = (s, panic)

  infixl 5 ◌>>=◌ ◌>>◌
  abbrev pub ◌>>=◌ : {A B : Type 0} → Io S E A → (A → Io S E B) → Io S E B
  ◌>>=◌ first next s = after (first s) next

  abbrev pub ◌>>◌ : {B : Type 0} → Io S E (Unit {0}) → Io S E B → Io S E B
  first >> second = first >>= λ done. second

  -- a `for` loop
  abbrev pub for_each : {A : Type 0} → List A → (A → Io S E (Unit {0})) → Io S E (Unit {0})
  for_each [] body s = (s, ok tt)
  for_each (a ∷ rest) body s = after (body a s) (λ done. for_each rest body)

  abbrev pub when : Bool → Io S E (Unit {0}) → Io S E (Unit {0})
  when true body = body
  when false body = pure tt

-- the result of a command whose value has been dropped
abbrev pub dropped : {E E' A : Type 0} → Result E' (Unit {0}) → Result E A → Result E A
dropped (ok _) r = r
dropped (err e) r = panic
dropped panic r = panic

module _ {Disk E : Type 0} where
  abbrev pub print : Line → Io (World Disk) E (Unit {0})
  print line w = (record w { printed = w.printed ++ line ∷ [] }, ok tt)

  -- a call that changes the disk
  abbrev pub on_disk :
      {E' A : Type 0} → (Disk → Disk × Result E' A) → (E' → E) → Io (World Disk) E A
  on_disk call convert w =
      let (disk, r) = call w.disk in (record w { disk = disk }, map_err r convert)

  -- what a call reads from the disk
  abbrev pub read : {E' A : Type 0} → (Disk → Result E' A) → (E' → E) → Io (World Disk) E A
  read call convert w = (w, map_err (call w.disk) convert)

  module _ {X : Type 0} where
    -- a part of a command that leaves the held value alone
    abbrev pub inner : {A : Type 0} → Io (World Disk) E A → Io (X × World Disk) E A
    inner body (x, w) = let (w', r) = body w in ((x, w'), r)

    abbrev pub say : Line → Io (X × World Disk) E (Unit {0})
    say line = inner (print line)

    abbrev pub held : Io (X × World Disk) E X
    held (x, w) = ((x, w), ok x)

    -- a method on `&mut` of the held value
    abbrev pub change : {E' A : Type 0} → (X → X × Result E' A) → (E' → E) → Io (X × World Disk) E A
    change call convert (x, w) = let (x', r) = call x in ((x', w), map_err r convert)

    -- A value lives to the end of the body, however that ends, and is dropped then.
    abbrev pub hold :
        {E' A : Type 0}
        → (X → Disk → Disk × Result E' (Unit {0}))
        → X
        → Io (X × World Disk) E A
        → Io (World Disk) E A
    hold drop x body w =
        let ((x', w'), r) = body (x, w) in
        let (disk, end) = drop x' w'.disk in (record w' { disk = disk }, dropped end r)
