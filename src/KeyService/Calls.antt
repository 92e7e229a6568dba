-- ===== src/KeyService/Calls.antt =====
-- Calls that may fail and change a world, which stays changed when they fail: the PKCS#11 service
-- is written with them.
pub mod Runs
use ortholog_artifact_store.Base.{Result, ok, err, map_err}

abbrev pub Calls : Type 0 → Type 0 → Type 0 → Type 0
Calls E World A = World → Result E A × World

module _ {E World A : Type 0} where
  unfoldable pub pure : A → Calls E World A
  pure x w = (ok x, w)

  unfoldable pub raise : E → Calls E World A
  raise e w = (err e, w)

  unfoldable pub lift : Result E A → Calls E World A
  lift r w = (r, w)

  -- `defer`: the second call runs however the first has ended, and its own end is not reported.
  unfoldable pub finally : {F B : Type 0} → Calls E World A → Calls F World B → Calls E World A
  finally call last w = let (r, w') = call w in (r, (last w').1)

  abbrev pub undo_after : {F B : Type 0} → Calls F World B → Result E A → World → World
  undo_after undo (ok x) w = w
  undo_after undo (err e) w = (undo w).1

  -- The second call runs if the first fails, and its own end is not reported.
  unfoldable pub or_undo : {F B : Type 0} → Calls E World A → Calls F World B → Calls E World A
  or_undo call undo w = let (r, w') = call w in (r, undo_after undo r w')

  -- The result of a call, read.
  unfoldable pub ending :
      {F B : Type 0} → (Result E A → Result F B) → Calls E World A → Calls F World B
  ending read call w = let (r, w') = call w in (read r, w')

  -- The error of a call, in the caller's words.
  unfoldable pub failing : {F : Type 0} → (E → F) → Calls E World A → Calls F World A
  unfolding ending
  failing words = ending (map_err words)

module _ {E World A B : Type 0} where
  abbrev pub go_on : (A → Calls E World B) → Result E A → World → Result E B × World
  go_on rest (ok x) w = rest x w
  go_on rest (err e) w = (err e, w)

  infixl 10 ◌>>=◌ ◌>>◌
  unfoldable pub ◌>>=◌ : Calls E World A → (A → Calls E World B) → Calls E World B
  ◌>>=◌ call rest w = let (r, w') = call w in go_on rest r w'

  unfoldable pub ◌>>◌ : Calls E World A → Calls E World B → Calls E World B
  unfolding ◌>>=◌
  call >> rest = call >>= λ _. rest
