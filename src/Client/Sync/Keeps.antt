-- ===== src/Client/Sync/Keeps.antt =====
-- src/client.rs: a round of a Sync does not touch the messages that are still to be handled.
use pgcat.Prelude.{ℕ, ◌≡◌, Bool, true, false, Option, none, some, List, if◌then◌else◌}
use pgcat.Prelude.Dict.{text_Eq}
use pgcat.Prelude.Result.{Result, ok, err, panic}
use pgcat.Errors.{Error}
use pgcat.Wire.{Codec, IsCodec}
use pgcat.Config.{Address}
use pgcat.Messages.Parse.{Parse}
use pgcat.Server.Parameters.{Text}
use pgcat.Server.State.{Lru, Server, Outcome, done, failed, panicked, stuck}
use pgcat.Server.Prepared.{has_prepared_statement}
use pgcat.Server.Prepared.Register.{Registered, register_prepared_statement-Registered}
use pgcat.Pool.{ConnectionPool}
use pgcat.Pool.Statements.{ParseLru}
use pgcat.Client.{
  Client, ExtendedProtocolData, parse, bind, describe, execute, close, put, World, W, after, change,
}
use pgcat.Client.Sync.{
  is_refusal, closes_statement, finish, register_outcome, register_parse_to_server_cache, promote,
  forget_refused, ensure_known, ensure_prepared_statement_is_on_server, ensure, mark_if_named,
  parse_found, process,
}

module _ (c : Codec) (w : IsCodec c) (L : Lru) (P : ParseLru) (address : Address) (now : ℕ) where
  -- It does not run out of fuel, and unless it panics these messages are still to be handled.
  abbrev pub Keeps : {A : Type 0} → List ExtendedProtocolData → Outcome A × World L P → Type 0
  Keeps ds (done _, v) = v.client.extended_protocol_data_buffer ≡ ds
  Keeps ds (failed e, v) = v.client.extended_protocol_data_buffer ≡ ds
  Keeps ds (panicked, v) = Unit {0}
  Keeps ds (stuck, v) = ⊥

  after-Keeps :
      {A B : Type 0} (ds : List ExtendedProtocolData) (r : Outcome A × World L P) (f : A → W L P B)
      → Keeps ds r
      → ((a : A) (v : World L P) → v.client.extended_protocol_data_buffer ≡ ds → Keeps ds (f a v))
      → Keeps ds (after L P r.0 r.1 f)
  after-Keeps ds (done a, v) f h k = k a v h
  after-Keeps ds (failed e, v) f h k = h
  after-Keeps ds (panicked, v) f h k = tt
  after-Keeps ds (stuck, v) f h k = h

  if-Keeps :
      {A : Type 0} (ds : List ExtendedProtocolData) (b : Bool) (r s : Outcome A × World L P)
      → Keeps ds r
      → Keeps ds s
      → Keeps ds (if b then r else s)
  if-Keeps ds true r s h k = h
  if-Keeps ds false r s h k = k

  finish-Keeps :
      (ds : List ExtendedProtocolData) (e : Error) (v : World L P) (r : Result Error ConnectionPool)
      → v.client.extended_protocol_data_buffer ≡ ds
      → Keeps ds (finish c L P address now (failed e) v r)
  finish-Keeps ds e v (ok pool) k = k
  finish-Keeps ds e v (err x) k = tt
  finish-Keeps ds e v panic k = tt

  -- A registration with the server, whatever comes of it.
  Registered-Keeps :
      (ds : List ExtendedProtocolData) (name : Text) (v : World L P) (o : Outcome (Unit {0}))
      (t : Server L.Cache)
      → Registered c w L name o t
      → v.client.extended_protocol_data_buffer ≡ ds
      → Keeps ds (register_outcome c L P address now o (record v { server = t }))
  Registered-Keeps ds name v (done _) t h k = k
  Registered-Keeps ds name v (failed e) t h k =
      if-Keeps ds (is_refusal e) _ _ k (finish-Keeps ds e (record v { server = t }) _ k)
  Registered-Keeps ds name v panicked t h k = tt
  Registered-Keeps ds name v stuck t h k = h

  register-Keeps :
      (ds : List ExtendedProtocolData) (should_send : Bool) (hash : ℕ) (p : Parse) (v : World L P)
      → v.client.extended_protocol_data_buffer ≡ ds
      → Keeps ds (register_parse_to_server_cache c L P address now should_send hash p v)
  unfolding register_parse_to_server_cache
  register-Keeps ds should_send hash p v k =
      Registered-Keeps ds p.name (promote c L P address now hash v).1 _ _
        (register_prepared_statement-Registered c w L p should_send v.server) k

  forget_refused-Keeps :
      (ds : List ExtendedProtocolData) (name : Text) (r : Outcome (Unit {0}) × World L P)
      → Keeps ds r
      → Keeps ds (forget_refused c L P address now name r.0 r.1)
  forget_refused-Keeps ds name (done _, v) h = h
  forget_refused-Keeps ds name (failed e, v) h = if-Keeps {A = Unit {0}} ds (is_refusal e) _ _ h h
  forget_refused-Keeps ds name (panicked, v) h = tt
  forget_refused-Keeps ds name (stuck, v) h = h

  ensure_known-Keeps :
      (ds : List ExtendedProtocolData) (name : Text) (found : Option (Parse × ℕ)) (v : World L P)
      → v.client.extended_protocol_data_buffer ≡ ds
      → Keeps ds (ensure_known c L P address now name found v)
  ensure_known-Keeps ds name none v k = k
  ensure_known-Keeps ds name (some (p, hash)) v k =
      forget_refused-Keeps ds name (register_parse_to_server_cache c L P address now true hash p v)
        (register-Keeps ds true hash p v k)

  ensure-Keeps :
      (ds : List ExtendedProtocolData) (name : Option Text) (v : World L P)
      → v.client.extended_protocol_data_buffer ≡ ds
      → Keeps ds (ensure c L P address now name v)
  unfolding ensure_prepared_statement_is_on_server
  ensure-Keeps ds none v k = k
  ensure-Keeps ds (some name) v k = ensure_known-Keeps ds name _ v k

  put-Keeps :
      (ds : List ExtendedProtocolData) (bytes : List ℕ) (r : Outcome (Unit {0}) × World L P)
      → Keeps ds r
      → Keeps ds (after L P {A = Unit {0}} {B = Unit {0}} r.0 r.1 λ _. change L P (put bytes))
  put-Keeps ds bytes r h =
      after-Keeps {A = Unit {0}} {B = Unit {0}} ds r (λ _. change L P (put bytes)) h λ a v k. k

  mark-Keeps :
      (ds : List ExtendedProtocolData) (b : Bool) (v u : World L P)
      → v.client.extended_protocol_data_buffer ≡ ds
      → u.client.extended_protocol_data_buffer ≡ ds
      → (if b then v else u).client.extended_protocol_data_buffer ≡ ds
  mark-Keeps ds true v u h k = h
  mark-Keeps ds false v u h k = k

  found-Keeps :
      (ds : List ExtendedProtocolData) (bytes : List ℕ) (p : Parse) (hash : ℕ) (b : Bool)
      (v : World L P)
      → v.client.extended_protocol_data_buffer ≡ ds
      → Keeps ds (parse_found c L P address now bytes p hash b v)
  found-Keeps ds bytes p hash true v k = k
  found-Keeps ds bytes p hash false v k =
      put-Keeps ds bytes (register_parse_to_server_cache c L P address now false hash p v)
        (register-Keeps ds false hash p v k)

  close-Keeps :
      (ds : List ExtendedProtocolData) (b : Bool) (f g : Client → Client) (x : Client)
      → (f x).extended_protocol_data_buffer ≡ ds
      → (g x).extended_protocol_data_buffer ≡ ds
      → ((if b then f else g) x).extended_protocol_data_buffer ≡ ds
  close-Keeps ds true f g x h k = h
  close-Keeps ds false f g x h k = k

  pub process-Keeps :
      (ds : List ExtendedProtocolData) (d : ExtendedProtocolData) (v : World L P)
      → v.client.extended_protocol_data_buffer ≡ ds
      → Keeps ds (process c L P address now d v)
  unfolding process has_prepared_statement
  process-Keeps ds (parse bytes none) v k =
      put-Keeps ds bytes (mark_if_named c L P address now bytes v) (mark-Keeps ds _ _ _ k k)
  process-Keeps ds (parse bytes (some (p, hash))) v k = found-Keeps ds bytes p hash _ _ k
  process-Keeps ds (bind bytes name) v k =
      put-Keeps ds bytes (ensure c L P address now name v) (ensure-Keeps ds name v k)
  process-Keeps ds (describe bytes name) v k =
      put-Keeps ds bytes (ensure c L P address now name v) (ensure-Keeps ds name v k)
  process-Keeps ds (execute bytes) v k = k
  process-Keeps ds (close bytes request) v k =
      close-Keeps ds (closes_statement v.client request) _ _ v.client k k
