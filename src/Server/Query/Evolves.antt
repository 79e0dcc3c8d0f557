-- ===== src/Server/Query/Evolves.antt =====
-- src/server.rs: what a query leaves of the statements and of the cleanup that is due.
use pgcat.Prelude.{ℕ, zero, suc, refl, Bool, true, false, List, length, if◌then◌else◌}
use pgcat.Prelude.Result.{Result, ok, err, panic}
use pgcat.Errors.{Error}
use pgcat.Wire.{Codec}
use pgcat.Wire.Sink.{Sink, write_all}
use pgcat.Messages.Reply.{simple_query}
use pgcat.Server.Parameters.{Text}
use pgcat.Server.State.{Lru, Server, Outcome, done, failed, panicked, stuck, after}
use pgcat.Server.Recv.Evolves.{Evolves, Evolves-trans, unchanged, recv-Evolves}
use pgcat.Server.Query.{send, sent, recv_plain, again, recv_all, query}

module _ (c : Codec) (L : Lru) where
  again-Evolves :
      (s t : Server L.Cache) (o : Outcome (List ℕ)) (more : Outcome (Unit {0}) × Server L.Cache)
      → Evolves L s t
      → Evolves L t more.1
      → Evolves L s (again c L o t more).1
  again-Evolves s t (done bytes) more a h = if_available t.data_available
    where
      if_available : (b : Bool) → Evolves L s (if b then more else (done tt, t)).1
      if_available true = Evolves-trans c L s t more.1 a h
      if_available false = a
  again-Evolves s t (failed e) more a h = a
  again-Evolves s t panicked more a h = a
  again-Evolves s t stuck more a h = a

  recv_all-Evolves : (fuel : ℕ) (s : Server L.Cache) → Evolves L s (recv_all c L fuel s).1
  unfolding recv_all
  recv_all-Evolves zero s = unchanged c L s s refl refl
  recv_all-Evolves (suc fuel) s =
      again-Evolves s (recv_plain c L s).1 (recv_plain c L s).0
        (recv_all c L fuel (recv_plain c L s).1) (recv-Evolves c L s _)
        (recv_all-Evolves fuel (recv_plain c L s).1)

  sent-Evolves :
      (s : Server L.Cache) (r : Result Error (Unit {0})) (k : Sink)
      → let q = after (sent r k s).0 (sent r k s).1 λ _ t. recv_all c L (suc (length t.inbox)) t in
        Evolves L s q.1
  sent-Evolves s (ok _) k =
      let t : Server L.Cache = record s { sink = k } in
      Evolves-trans c L s t _ (unchanged c L s t refl refl)
        (recv_all-Evolves (suc (length t.inbox)) t)
  sent-Evolves s (err e) k = unchanged c L s _ refl refl
  sent-Evolves s panic k = unchanged c L s _ refl refl

  -- However a query ends, its reply only takes statements out of the cache, and a cleanup that was
  -- due is still due.
  pub query-Evolves : (text : Text) (s : Server L.Cache) → Evolves L s (query c L text s).1
  unfolding query send
  query-Evolves text s =
      sent-Evolves s (write_all (simple_query c text) s.sink).0
        (write_all (simple_query c text) s.sink).1
