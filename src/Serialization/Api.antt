-- ===== src/Serialization/Api.antt =====
-- Sources/Serialization/Api.h: the events. Their JSON text is made and read by functions that the
-- modules that send and receive take as arguments (`Codec`).
use render_studio_kit.Shared.{ℕ, String, Bool, List, Option}
use render_studio_kit.Usd.{Usd}

module _ ⦃usd : Usd⦄ where
  open usd use {SdfPath, Token, Value, SpecType}

  pub record SpecData : Type 0 where
    pub spec_type : SpecType
    pub fields : List (Token × Value)

  pub record DeltaEvent : Type 0 where
    pub layer : String
    pub user : String
    pub sequence : Option ℕ
    pub updates : List (SdfPath × SpecData)

  pub record AcknowledgeEvent : Type 0 where
    pub layer : String
    pub paths : List SdfPath
    pub sequence : ℕ

  pub record ReloadEvent : Type 0 where
    pub layer : String
    pub user : String
    pub sequence : Option ℕ

  -- std::variant<DeltaEvent, AcknowledgeEvent, HistoryEvent, ReloadEvent>
  pub data Body : Type 0 where
    delta : DeltaEvent → Body
    acknowledge : AcknowledgeEvent → Body
    history : Body
    reload : ReloadEvent → Body

  pub record Event : Type 0 where
    pub event : String
    pub body : Body

  -- Event { "Delta::Event", v } and so on, as the senders write them
  abbrev pub delta_event : DeltaEvent → Event
  delta_event v = record { event = "Delta::Event"; body = delta v }

  abbrev pub acknowledge_event : AcknowledgeEvent → Event
  acknowledge_event v = record { event = "Acknowledge::Event"; body = acknowledge v }

  abbrev pub history_event : Event
  history_event = record { event = "History::Event"; body = history }

  abbrev pub reload_event : ReloadEvent → Event
  reload_event v = record { event = "Reload::Event"; body = reload v }

  -- boost::json::serialize(boost::json::value_from(event)), whether value_from throws on it, and
  -- ParseEvent
  pub record Codec : Type 0 where
    pub serialize : Event → String
    pub can_serialize : Event → Bool
    pub parse_event : String → Option Event
