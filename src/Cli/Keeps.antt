-- ===== src/Cli/Keeps.antt =====
-- What a program over a state leaves as it was: rules for the parts of a command.
use rgb.Base.{◌≡◌, refl, ◌∙◌, List, [], ◌∷◌, Result, ok, err, panic, arith, map_err}
use rgb.Cli.Io.{World, Io, after, ◌>>=◌, for_each, hold}

pub map_err-ok :
    {E E' A : Type 0} (r : Result E A) (convert : E → E') (a : A)
    → map_err r convert ≡ ok a
    → r ≡ ok a
map_err-ok (ok b) convert a h = ground arith
map_err-ok (err e) convert a h = absurd (ground arith)
map_err-ok panic convert a h = absurd (ground arith)

-- What a program returns, its last part returns on what the first returned.
pub after-ok :
    {S E A B : Type 0} (p : S × Result E A) (next : A → Io S E B) (b : B)
    → (after p next).1 ≡ ok b
    → (a : A) × (p.1 ≡ ok a) × ((next a p.0).1 ≡ ok b)
after-ok (s, ok a) next b h = (a, refl, h)
after-ok (s, err e) next b h = absurd (ground arith)
after-ok (s, panic) next b h = absurd (ground arith)

pub after-done :
    {S E A B : Type 0} (p : S × Result E A) (next : A → Io S E B) (s' : S) (b : B)
    → after p next ≡ (s', ok b)
    → (a : A) × (p.1 ≡ ok a) × (next a p.0 ≡ (s', ok b))
after-done (s, ok a) next s' b h = (a, refl, h)
after-done (s, err e) next s' b h = absurd (ground arith)
after-done (s, panic) next s' b h = absurd (ground arith)

module _ {S E : Type 0} (I : S → Type 0) where
  abbrev pub Keeps : {A : Type 0} → Io S E A → Type 0
  Keeps m = (s : S) → I s → I (m s).0

  pub after-Keeps :
      {A B : Type 0} (p : S × Result E A) (next : A → Io S E B)
      → I p.0
      → ((a : A) → Keeps (next a))
      → I (after p next).0
  after-Keeps (s, ok a) next h k = k a s h
  after-Keeps (s, err e) next h k = h
  after-Keeps (s, panic) next h k = h

  -- the same, with what the first part returned
  pub after-Keeps_ok :
      {A B : Type 0} (p : S × Result E A) (next : A → Io S E B)
      → I p.0
      → ((a : A) → p.1 ≡ ok a → I (next a p.0).0)
      → I (after p next).0
  after-Keeps_ok (s, ok a) next h k = k a refl
  after-Keeps_ok (s, err e) next h k = h
  after-Keeps_ok (s, panic) next h k = h

  pub bind-Keeps :
      {A B : Type 0} (m : Io S E A) (next : A → Io S E B)
      → Keeps m
      → ((a : A) → Keeps (next a))
      → Keeps (m >>= next)
  bind-Keeps m next h k s i = after-Keeps (m s) next (h s i) k

  pub for_each-Keeps :
      {A : Type 0} (xs : List A) (body : A → Io S E (Unit {0}))
      → ((a : A) → Keeps (body a))
      → Keeps (for_each xs body)
  for_each-Keeps [] body k s i = i
  for_each-Keeps (x ∷ xs) body k s i =
      after-Keeps (body x s) (λ done. for_each xs body) (k x s i) (λ done. for_each-Keeps xs body k)

module _ {Disk : Type 0} (disk : Disk) where
  -- the disk is as it was
  abbrev pub OnDisk : World Disk → Type 0
  OnDisk w = w.disk ≡ disk

  -- so is the disk, and the held value is of a kind
  abbrev pub With : {X : Type 0} → (X → Type 0) → X × World Disk → Type 0
  With C p = C p.0 × (p.1.disk ≡ disk)

  pub hold-OnDisk :
      {X E E' A : Type 0} (C : X → Type 0) (drop : X → Disk → Disk × Result E' (Unit {0})) (x : X)
      (body : Io (X × World Disk) E A) (w : World Disk)
      → ((y : X) → C y → (d : Disk) → (drop y d).0 ≡ d)
      → Keeps (With C) body
      → C x
      → OnDisk w
      → OnDisk (hold drop x body w).0
  hold-OnDisk C drop x body w clean keeps c h =
      let (c', h') = keeps (x, w) (c, h) in clean (body (x, w)).0.0 c' (body (x, w)).0.1.disk ∙ h'
