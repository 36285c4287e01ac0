-- ===== src/Message.antt =====
-- Messages/: `Packet`, `RoutingMessage` and their base `AbstractNetMessage`. A byte is a number; a
-- pointer to a router is the router's address, which names it uniquely in a network.
use cn_project.Base.{ℕ, String, Bool, List, to_u16}

pub record Packet : Type 0 where
  pub is_ack : Bool
  pub packet_id : ℕ
  pub source : String
  pub destination : String
  pub body : List ℕ

-- The constructor: the id is a `uint16_t`.
unfoldable pub new_packet : Bool → ℕ → List ℕ → String → String → Packet
new_packet is_ack id body source destination = record {
  is_ack = is_ack;
  packet_id = to_u16 id;
  source = source;
  destination = destination;
  body = body;
}

unfoldable pub set_source : String → Packet → Packet
set_source new_source p = record p { source = new_source }

unfoldable pub set_destination : String → Packet → Packet
set_destination new_destination p = record p { destination = new_destination }

unfoldable pub switch_addresses : Packet → Packet
switch_addresses p = record p { source = p.destination; destination = p.source }

unfoldable pub set_body : List ℕ → Packet → Packet
set_body new_body p = record p { body = new_body }

unfoldable pub set_is_ack : Bool → Packet → Packet
set_is_ack new_is_ack p = record p { is_ack = new_is_ack }

unfoldable pub set_packet_id : ℕ → Packet → Packet
set_packet_id new_packet_id p = record p { packet_id = to_u16 new_packet_id }

pub record RoutingMessage : Type 0 where
  pub sender : String
  pub destination : String
  pub cost : ℕ

pub data MessageType : Type 0 where
  routing_message_type packet_type hand_shake_type : MessageType

-- The two classes that derive from `AbstractNetMessage`.
pub data Message : Type 0 where
  routing : RoutingMessage → Message
  data_packet : Packet → Message

unfoldable pub new_routing_message : String → String → ℕ → RoutingMessage
new_routing_message sender dest cost = record { sender = sender; destination = dest; cost = cost }

unfoldable pub get_sender : RoutingMessage → String
get_sender m = m.sender

unfoldable pub set_sender : String → RoutingMessage → RoutingMessage
set_sender new_sender m = record m { sender = new_sender }

unfoldable pub get_destination : RoutingMessage → String
get_destination m = m.destination

unfoldable pub set_routing_destination : String → RoutingMessage → RoutingMessage
set_routing_destination new_destination m = record m { destination = new_destination }

unfoldable pub get_cost : RoutingMessage → ℕ
get_cost m = m.cost

unfoldable pub set_cost : ℕ → RoutingMessage → RoutingMessage
set_cost new_cost m = record m { cost = new_cost }

unfoldable pub get_routing_type : RoutingMessage → MessageType
get_routing_type m = routing_message_type

unfoldable pub get_message_type : Message → MessageType
get_message_type (routing m) = get_routing_type m
get_message_type (data_packet p) = packet_type
