-- ===== src/Event.antt =====
-- pkg/events/events.go and pkg/events/history.go: events, stored events, queries and the sinks that
-- only record. A UUID is its 128-bit number, and uuid.Nil is 0; the objects of an event are of a
-- type `O` that the code only passes on.
pub mod Kind
pub mod Wire
pub mod RoundTrip
mod Tests
use modelsrv.Prelude.{ℕ, String, List, [], ◌∷◌, ◌++◌, Option, Bool, ℤ}
use Kind.{ResourceType}
use Wire.{Operation, wire_kind, wire_operation}

abbrev pub Uuid : Type 0
Uuid = ℕ

abbrev pub nil : Uuid
nil = 0

-- `Event`
pub record Event {ℓ} (O : Type ℓ) : Type ℓ where
  pub resource_type : ResourceType
  pub operation : Operation
  pub resource_id : Uuid
  pub objects : List O

-- `StoredEvent`; a time is a number that is never computed with.
pub record StoredEvent {ℓ} (O : Type ℓ) : Type ℓ where
  pub sequence_id : ℕ
  pub timestamp : ℕ
  pub resource_type : String
  pub operation : String
  pub resource_id : Uuid
  pub objects : List O

-- `EventQuery`; `none` is a nil pointer, and the limit is a Go `int`.
pub record EventQuery : Type 0 where
  pub operation : Option Operation
  pub resource_type : Option ResourceType
  pub resource_id : Option Uuid
  pub since_seq : ℕ
  pub limit : ℤ
  pub include_payload : Bool

-- `ListSink`
pub record ListSink {ℓ} (O : Type ℓ) : Type ℓ where
  pub events_txts : List String
  pub events : List (Event O)

module _ {ℓ} {O : Type ℓ} where
  -- The zero value of `StoredEvent`.
  abbrev pub zero_event : StoredEvent O
  zero_event = record {
    sequence_id = 0;
    timestamp = 0;
    resource_type = "";
    operation = "";
    resource_id = nil;
    objects = [];
  }

  -- `NewStoredEvent`
  unfoldable pub new_stored_event : ℕ → ℕ → ResourceType → Operation → Uuid → List O → StoredEvent O
  new_stored_event seq ts rt op id objects = record {
    sequence_id = seq;
    timestamp = ts;
    resource_type = wire_kind rt;
    operation = wire_operation op;
    resource_id = id;
    objects = objects;
  }

  -- `NewListSink`
  unfoldable pub new_list_sink : ListSink O
  new_list_sink = record { events_txts = []; events = [] }

  -- `ListSink.Receive`; `text` is `Event.String`, whose formatting is Go's.
  unfoldable pub list_sink_receive : (Event O → String) → ListSink O → Event O → ListSink O
  list_sink_receive text l ev = record l {
    events = l.events ++ (ev ∷ []);
    events_txts = l.events_txts ++ (text ev ∷ []);
  }
