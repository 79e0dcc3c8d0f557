-- ===== src/Client/Session/Ends.antt =====
-- src/client.rs: when the actions of a session come to an end.
use pgcat.Prelude.{Bool, true, false, if◌then◌else◌}
use pgcat.Prelude.Result.{Result, ok, err, panic}
use pgcat.Errors.{Error}
use pgcat.Wire.Sink.{Sink}
use pgcat.Server.State.{Lru, Outcome, done, failed, panicked, stuck}
use pgcat.Server.Prepared.Register.{Ends}
use pgcat.Pool.Statements.{ParseLru}
use pgcat.Client.Session.{Session, Act, following, bind_act, to_client, wrote}

module _ (L : Lru) (P : ParseLru) (Ast : Type 0) where
  abbrev S : Type 0
  S = Session L P Ast

  pub following-Ends :
      {A B : Type 0} (o : Outcome A) (t : S) (f : A → Act L P Ast B)
      → Ends o
      → ((a : A) (u : S) → Ends (f a u).0)
      → Ends (following L P Ast o t f).0
  following-Ends (done a) t f h k = k a t
  following-Ends (failed e) t f h k = tt
  following-Ends panicked t f h k = tt
  following-Ends stuck t f h k = h

  -- An action and what follows it.
  pub bind-Ends :
      {A B : Type 0} (m : Act L P Ast A) (f : A → Act L P Ast B)
      → ((s : S) → Ends (m s).0)
      → ((a : A) (u : S) → Ends (f a u).0)
      → (s : S) → Ends (bind_act L P Ast m f s).0
  bind-Ends m f h k s = following-Ends (m s).0 (m s).1 f (h s) k

  pub wrote-Ends : (r : Result Error (Unit {0}) × Sink) (s : S) → Ends (wrote L P Ast r s).0
  wrote-Ends (ok _, k) s = tt
  wrote-Ends (err e, k) s = tt
  wrote-Ends (panic, k) s = tt

  pub if-Ends :
      {A : Type 0} (b : Bool) (m k : Act L P Ast A) (s : S)
      → Ends (m s).0
      → Ends (k s).0
      → Ends ((if b then m else k) s).0
  if-Ends true m k s h h' = h
  if-Ends false m k s h h' = h'

  -- An action that ends.
  pub record Halts {A : Type 0} (m : Act L P Ast A) : Type 0 where
    pub halts : (s : S) → Ends (m s).0

  pub then-Halts :
      {A B : Type 0} (m : Act L P Ast A) (f : A → Act L P Ast B)
      → Halts m
      → ((a : A) → Halts (f a))
      → Halts (bind_act L P Ast m f)
  then-Halts m f h k = record { halts = bind-Ends m f (λ s. h.halts s) (λ a u. (k a).halts u) }

  pub if-Halts :
      {A : Type 0} (b : Bool) {m k : Act L P Ast A} → Halts m → Halts k → Halts (if b then m else k)
  if-Halts true h h' = h
  if-Halts false h h' = h'

  pub told-Halts :
      {A : Type 0} (tell : Sink → Result Error (Unit {0}) × Sink) (k : Act L P Ast A)
      → Halts k
      → Halts (bind_act L P Ast (to_client L P Ast tell) (λ _. k))
  told-Halts tell k h =
      then-Halts (to_client L P Ast tell) (λ _. k)
        (record { halts = λ s. wrote-Ends (tell s.world.client.write) s }) (λ _. h)
