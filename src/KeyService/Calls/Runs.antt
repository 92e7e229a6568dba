-- ===== src/KeyService/Calls/Runs.antt =====
-- What calls come to: `Runs P Q R call` says that from a world in `P` the call ends in `Q`, or in
-- `R` if it fails.
use ortholog_artifact_store.Base.{Result, ok, err, map_err}
use ortholog_artifact_store.KeyService.Calls.{
  Calls, pure, raise, lift, finally, undo_after, or_undo, ending, failing, go_on, ◌>>=◌, ◌>>◌,
}

abbrev pub Ends :
    {E World A : Type 0} → (A → World → Type 0) → (World → Type 0) → Result E A → World → Type 0
Ends Q R (ok x) w = Q x w
Ends Q R (err e) w = R w

pub record Runs {E World A : Type 0} (P : World → Type 0) (Q : A → World → Type 0)
    (R : World → Type 0) (call : Calls E World A) : Type 0 where
  pub at : (w : World) → P w → Ends Q R (call w).0 (call w).1

-- The call leaves what is so as it is.
abbrev pub Keeps : {E World A : Type 0} → (World → Type 0) → Calls E World A → Type 0
Keeps P = Runs P (λ _. P) P

module _ {E World A : Type 0} (Q : A → World → Type 0) (R : World → Type 0) where
  Ends-map_err :
      {F : Type 0} (words : E → F) (r : Result E A) (w : World)
      → Ends Q R r w
      → Ends Q R (map_err words r) w
  Ends-map_err words (ok x) w h = h
  Ends-map_err words (err e) w h = h

  Ends-imply :
      (Q' : A → World → Type 0) (R' : World → Type 0) (r : Result E A) (w w' : World)
      → ((x : A) → Q x w → Q' x w')
      → (R w → R' w')
      → Ends Q R r w
      → Ends Q' R' r w'
  Ends-imply Q' R' (ok x) w w' returned failed h = returned x h
  Ends-imply Q' R' (err e) w w' returned failed h = failed h

  Ends-undo_after :
      {F B : Type 0} (R' : World → Type 0) (undo : Calls F World B)
      → ((w : World) → R w → R' (undo w).1)
      → (r : Result E A) (w : World) → Ends Q R r w
      → Ends Q R' r (undo_after undo r w)
  Ends-undo_after R' undo failed (ok x) w h = h
  Ends-undo_after R' undo failed (err e) w h = failed w h

  Ends-go_on :
      {B : Type 0} (Q' : B → World → Type 0) (rest : A → Calls E World B)
      → ((x : A) → Runs (Q x) Q' R (rest x))
      → (r : Result E A) (w : World) → Ends Q R r w
      → Ends Q' R (go_on rest r w).0 (go_on rest r w).1
  Ends-go_on Q' rest goes (ok x) w h = (goes x).at w h
  Ends-go_on Q' rest goes (err e) w h = h

Ends-same :
    {E World A : Type 0} (P : World → Type 0) (r : Result E A) (w : World)
    → P w
    → Ends (λ _. P) P r w
Ends-same P (ok x) w h = h
Ends-same P (err e) w h = h

Ends-left :
    {E World A : Type 0} (P : World → Type 0) (r : Result E A) (w : World)
    → Ends (λ _. P) P r w
    → P w
Ends-left P (ok x) w h = h
Ends-left P (err e) w h = h

module _ {E World A : Type 0} {P R : World → Type 0} {Q : A → World → Type 0} where
  pub Runs-pure : (x : A) → ((w : World) → P w → Q x w) → Runs {E = E} P Q R (pure x)
  unfolding pure
  Runs-pure x h = record { at = h }

  pub Runs-raise : (e : E) → ((w : World) → P w → R w) → Runs P Q R (raise e)
  unfolding raise
  Runs-raise e h = record { at = h }

  pub Runs-failing :
      {F : Type 0} (words : E → F) (call : Calls E World A)
      → Runs P Q R call
      → Runs P Q R (failing words call)
  unfolding failing
  Runs-failing words call runs = record {
    at = λ w h. let (r, w') = call w in Ends-map_err Q R words r w' (runs.at w h);
  }

  pub Runs-imply :
      {Q' : A → World → Type 0} {R' : World → Type 0} (call : Calls E World A)
      → Runs P Q R call
      → ((x : A) (w : World) → Q x w → Q' x w)
      → ((w : World) → R w → R' w)
      → Runs P Q' R' call
  Runs-imply {Q'} {R'} call runs returned failed = record {
    at = λ w h.
        let (r, w') = call w in
        Ends-imply Q R Q' R' r w' w' (λ x. returned x w') (failed w') (runs.at w h);
  }

  pub Runs-finally :
      {F B : Type 0} {Q' : A → World → Type 0} {R' : World → Type 0} (call : Calls E World A)
      (last : Calls F World B)
      → Runs P Q R call
      → ((x : A) (w : World) → Q x w → Q' x (last w).1)
      → ((w : World) → R w → R' (last w).1)
      → Runs P Q' R' (finally call last)
  unfolding finally
  Runs-finally {Q' = Q'} {R'} call last runs returned failed = record {
    at = λ w h.
        let (r, w') = call w in
        Ends-imply Q R Q' R' r w' (last w').1 (λ x. returned x w') (failed w') (runs.at w h);
  }

  pub Runs-or_undo :
      {F B : Type 0} {R' : World → Type 0} (call : Calls E World A) (undo : Calls F World B)
      → Runs P Q R call
      → ((w : World) → R w → R' (undo w).1)
      → Runs P Q R' (or_undo call undo)
  unfolding or_undo
  Runs-or_undo {R' = R'} call undo runs failed = record {
    at = λ w h. let (r, w') = call w in Ends-undo_after Q R R' undo failed r w' (runs.at w h);
  }

  pub Runs-bind :
      {B : Type 0} {Q' : B → World → Type 0} (call : Calls E World A) (rest : A → Calls E World B)
      → Runs P Q R call
      → ((x : A) → Runs (Q x) Q' R (rest x))
      → Runs P Q' R (call >>= rest)
  unfolding ◌>>=◌
  Runs-bind {Q' = Q'} call rest runs goes = record {
    at = λ w h. let (r, w') = call w in Ends-go_on Q R Q' rest goes r w' (runs.at w h);
  }

module _ {E World A B : Type 0} {P R : World → Type 0} {Q : A → World → Type 0}
    {Q' : B → World → Type 0} where
  pub Runs-then :
      (call : Calls E World A) (rest : Calls E World B)
      → Runs P Q R call
      → ((x : A) → Runs (Q x) Q' R rest)
      → Runs P Q' R (call >> rest)
  unfolding ◌>>◌
  Runs-then call rest runs goes = Runs-bind call (λ _. rest) runs goes

module _ {E World A : Type 0} {P : World → Type 0} where
  pub Keeps-call : (call : Calls E World A) → ((w : World) → P w → P (call w).1) → Keeps P call
  Keeps-call call keeps = record {
    at = λ w h. let (r, w') = call w in Ends-same P r w' (keeps w h);
  }

  pub Keeps-lift : (r : Result E A) → Keeps P (lift r)
  unfolding lift
  Keeps-lift r = record { at = Ends-same P r }

  pub Keeps-ending :
      {F B : Type 0} (read : Result E A → Result F B) (call : Calls E World A)
      → Keeps P call
      → Keeps P (ending read call)
  unfolding ending
  Keeps-ending read call keeps = record {
    at = λ w h. let (r, w') = call w in Ends-same P (read r) w' (Ends-left P r w' (keeps.at w h));
  }

  pub Keeps-at : (call : Calls E World A) → Keeps P call → (w : World) → P w → P (call w).1
  Keeps-at call keeps w h = let (r, w') = call w in Ends-left P r w' (keeps.at w h)
