-- ===== src/Client/Sync/Ready.antt =====
-- src/client.rs: batches of messages whose statements the server already has, and what a Sync should send
-- and answer for them.
use pgcat.Prelude.{
  ℕ, ◌≡◌, Bool, true, ◌&&◌, not, Option, none, some, List, [], ◌∷◌, ◌++◌, ◌==◌, if◌then◌else◌,
}
use pgcat.Prelude.Dict.{lookup, remove, text_Eq}
use pgcat.Wire.{Codec}
use pgcat.Messages.Parse.{Parse}
use pgcat.Messages.Target.{Close, is_prepared_statement, close_anonymous}
use pgcat.Messages.Reply.{parse_complete, close_complete}
use pgcat.Server.Parameters.{Text}
use pgcat.Server.State.{Lru}
use pgcat.Client.{ExtendedProtocolData, parse, bind, describe, execute, close}
use pgcat.Client.Sync.{name_byte}

-- What the lru crate documents of a look into the cache.
pub record IsLru (L : Lru) : Type 0 where
  pub get_peek : (name : Text) (m : L.Cache) → (L.get name m).0 ≡ L.peek m name
  pub peek_get : (name other : Text) (m : L.Cache) → L.peek (L.get name m).1 other ≡ L.peek m other

abbrev pub Names : Type 0
Names = List (Text × (Parse × ℕ))

-- A Close that the client's own names answer.
abbrev pub closes : Bool → Close → Bool
closes enabled request = enabled && (is_prepared_statement request && not (close_anonymous request))

-- The names of the client once these messages are handled.
unfoldable pub names_after : Bool → List ExtendedProtocolData → Names → Names
names_after enabled [] names = names
names_after enabled (close bytes request ∷ ds) names =
    names_after enabled ds (if closes enabled request then remove request.name names else names)
names_after enabled (d ∷ ds) names = names_after enabled ds names

-- What is sent on: all messages but the Parse messages of statements and the Close messages answered.
abbrev pub sent_on : Bool → ExtendedProtocolData → List ℕ
sent_on enabled (parse bytes none) = bytes
sent_on enabled (parse bytes (some _)) = []
sent_on enabled (bind bytes name) = bytes
sent_on enabled (describe bytes name) = bytes
sent_on enabled (execute bytes) = bytes
sent_on enabled (close bytes request) = if closes enabled request then [] else bytes

unfoldable pub forwarded : Bool → List ExtendedProtocolData → List ℕ
forwarded enabled [] = []
forwarded enabled (d ∷ ds) = sent_on enabled d ++ forwarded enabled ds

module _ (c : Codec) where
  abbrev pub reply_to : Bool → ExtendedProtocolData → List ℕ
  reply_to enabled (parse bytes (some _)) = parse_complete c
  reply_to enabled (close bytes request) = if closes enabled request then close_complete c else []
  reply_to enabled _ = []

  unfoldable pub replies : Bool → List ExtendedProtocolData → List ℕ
  replies enabled [] = []
  replies enabled (d ∷ ds) = reply_to enabled d ++ replies enabled ds

-- A statement that the server has, by the name that the pool gave it.
abbrev pub Has : (L : Lru) → Option L.Cache → Text → Type 0
Has L none name = ⊥
Has L (some m) name = L.peek m name ≡ true

abbrev pub Knows : (L : Lru) → Option L.Cache → Names → Option Text → Type 0
Knows L m names none = Unit {0}
Knows L m names (some name) =
    (p : Parse) × (hash : ℕ) × (lookup name names ≡ some (p, hash)) × Has L m p.name

abbrev pub IsReady : (L : Lru) → Option L.Cache → Names → ExtendedProtocolData → Type 0
IsReady L m names (parse bytes none) = (name_byte bytes == 0) ≡ true
IsReady L m names (parse bytes (some (p, hash))) = Has L m p.name
IsReady L m names (bind bytes name) = Knows L m names name
IsReady L m names (describe bytes name) = Knows L m names name
IsReady L m names _ = Unit {0}

-- Every message finds its statement on the server, also after the Close messages before it.
unfoldable pub AllReady :
    (L : Lru) → Option L.Cache → Bool → Names → List ExtendedProtocolData → Type 0
unfolding names_after
AllReady L m enabled names [] = Unit {0}
AllReady L m enabled names (d ∷ ds) =
    IsReady L m names d × AllReady L m enabled (names_after enabled (d ∷ []) names) ds
