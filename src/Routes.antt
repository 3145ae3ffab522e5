-- ===== src/Routes.antt =====
-- src/routes.rs: a route is lowered to the core's routing information.
pub mod Laws
use glide_rust.Base.{ℕ, Bytes, Option, none, some}
use glide_rust.Redis.{Cmd}

pub data SlotType : Type 0 where
  primary replica : SlotType

-- `redis::cluster_routing::SlotAddr`, by the two that the client asks for.
pub data SlotAddr : Type 0 where
  master replica_required : SlotAddr

unfoldable pub slot_addr : SlotType → SlotAddr
slot_addr primary = master
slot_addr replica = replica_required

pub data Route : Type 0 where
  all_nodes all_primaries random_node : Route
  slot_key : Bytes → SlotType → Route
  slot_id : ℕ → SlotType → Route
  by_address : Bytes → ℕ → Route

-- `SingleNodeRoutingInfo`, `MultipleNodeRoutingInfo` and `RoutingInfo` of the fork, by the forms
-- that the client builds; `P` stands for `ResponsePolicy`.
pub data SingleNode : Type 0 where
  random : SingleNode
  specific_node : ℕ → SlotAddr → SingleNode
  address : Bytes → ℕ → SingleNode

pub data MultiNode : Type 0 where
  every_node all_masters : MultiNode

pub data RoutingInfo (P : Type 0) : Type 0 where
  single_node : SingleNode → RoutingInfo P
  multi_node : MultiNode → Option P → RoutingInfo P

-- The fork's `Cmd::command`, `ResponsePolicy::for_command` and `get_slot`.
pub record Topology (P : Type 0) : Type 0 where
  pub command : Cmd → Option Bytes
  pub for_command : Bytes → Option P
  pub get_slot : Bytes → ℕ

-- `Option::and_then`
abbrev pub and_then : {A B : Type 0} → Option A → (A → Option B) → Option B
and_then none f = none
and_then (some a) f = f a

module _ {P : Type 0} (topology : Topology P) where
  -- The closure `response_policy`.
  unfoldable pub response_policy : Option Cmd → Option P
  response_policy cmd = and_then (and_then cmd topology.command) topology.for_command

  unfoldable pub to_routing_info : Route → Option Cmd → RoutingInfo P
  unfolding response_policy slot_addr
  to_routing_info all_nodes cmd = multi_node every_node (response_policy cmd)
  to_routing_info all_primaries cmd = multi_node all_masters (response_policy cmd)
  to_routing_info random_node cmd = single_node random
  to_routing_info (slot_key key slot_type) cmd =
      single_node (specific_node (topology.get_slot key) (slot_addr slot_type))
  to_routing_info (slot_id id slot_type) cmd = single_node (specific_node id (slot_addr slot_type))
  to_routing_info (by_address host port) cmd = single_node (address host port)
