-- ===== src/Routes/Laws.antt =====
-- Where a route of src/routes.rs is sent to, and what its lowering keeps.
use glide_rust.Base.{ℕ, Bytes, List, ◌≡◌, refl, ◌↔◌, Option, none, some, ap, Option-cases, inl, inr}
use glide_rust.Redis.{Cmd}
use glide_rust.Routes.{
  response_policy, slot_addr, SlotType, primary, replica, Route, all_nodes, all_primaries,
  random_node, slot_key, slot_id, by_address, random, specific_node, address, RoutingInfo,
  single_node, multi_node, Topology, to_routing_info, master, replica_required, every_node,
  all_masters,
}

-- A cluster by its nodes, its primaries, the primary and the replica that serve a slot, and the node
-- at an address; and the nodes that a command goes to: all of some, one of some, or one.
pub record Cluster (N : Type 0) : Type 0 where
  pub nodes : List N
  pub primaries : List N
  pub primary_of : ℕ → N
  pub replica_of : ℕ → N
  pub node_at : Bytes → ℕ → Option N

pub data Recipients (N : Type 0) : Type 0 where
  every one_of : List N → Recipients N
  just : N → Recipients N
  at_address : Option N → Recipients N

-- Where the core sends a command with a routing, and where a route says that it goes to.
abbrev pub sent_to : {N P : Type 0} → Cluster N → RoutingInfo P → Recipients N
sent_to cluster (single_node random) = one_of cluster.nodes
sent_to cluster (single_node (specific_node slot master)) = just (cluster.primary_of slot)
sent_to cluster (single_node (specific_node slot replica_required)) = just (cluster.replica_of slot)
sent_to cluster (single_node (address host port)) = at_address (cluster.node_at host port)
sent_to cluster (multi_node every_node _) = every cluster.nodes
sent_to cluster (multi_node all_masters _) = every cluster.primaries

abbrev in_charge : {N : Type 0} → Cluster N → ℕ → SlotType → N
in_charge cluster slot primary = cluster.primary_of slot
in_charge cluster slot replica = cluster.replica_of slot

-- How the replies of several nodes are combined.
abbrev pub policy_of : {P : Type 0} → RoutingInfo P → Option P
policy_of (single_node _) = none
policy_of (multi_node _ policy) = policy

-- The node that a lowered route names, as the route that names it: a slot for a key.
abbrev raise : {P : Type 0} → RoutingInfo P → Route
raise (single_node random) = random_node
raise (single_node (specific_node n master)) = slot_id n primary
raise (single_node (specific_node n replica_required)) = slot_id n replica
raise (single_node (address host port)) = by_address host port
raise (multi_node every_node _) = all_nodes
raise (multi_node all_masters _) = all_primaries

module _ {P : Type 0} (topology : Topology P) where
  -- A route by key with its slot worked out.
  abbrev pub resolve : Route → Route
  resolve (slot_key key t) = slot_id (topology.get_slot key) t
  resolve r = r

  raise-to_routing_info :
      (r : Route) (cmd : Option Cmd) → raise (to_routing_info topology r cmd) ≡ resolve r
  unfolding to_routing_info
  raise-to_routing_info all_nodes cmd = refl
  raise-to_routing_info all_primaries cmd = refl
  raise-to_routing_info random_node cmd = refl
  raise-to_routing_info (slot_key key primary) cmd = refl
  raise-to_routing_info (slot_key key replica) cmd = refl
  raise-to_routing_info (slot_id n primary) cmd = refl
  raise-to_routing_info (slot_id n replica) cmd = refl
  raise-to_routing_info (by_address host port) cmd = refl

  to_routing_info-resolve :
      (r : Route) (cmd : Option Cmd)
      → to_routing_info topology (resolve r) cmd ≡ to_routing_info topology r cmd
  unfolding to_routing_info
  to_routing_info-resolve (slot_key key t) cmd = refl
  to_routing_info-resolve _ cmd = refl

  abbrev pub meant : {N : Type 0} → Cluster N → Route → Recipients N
  meant cluster all_nodes = every cluster.nodes
  meant cluster all_primaries = every cluster.primaries
  meant cluster random_node = one_of cluster.nodes
  meant cluster (slot_key key t) = just (in_charge cluster (topology.get_slot key) t)
  meant cluster (slot_id slot t) = just (in_charge cluster slot t)
  meant cluster (by_address host port) = at_address (cluster.node_at host port)

  -- A route to several nodes has the policy of the name of the command.
  abbrev named_policy : Option Bytes → Option P
  named_policy none = none
  named_policy (some name) = topology.for_command name

  abbrev command_policy : Option Cmd → Option P
  command_policy none = none
  command_policy (some cmd) = named_policy (topology.command cmd)

  abbrev pub expected_policy : Route → Option Cmd → Option P
  expected_policy all_nodes cmd = command_policy cmd
  expected_policy all_primaries cmd = command_policy cmd
  expected_policy _ cmd = none

  sent_to-to_routing_info :
      {N : Type 0} (cluster : Cluster N) (r : Route) (cmd : Option Cmd)
      → sent_to cluster (to_routing_info topology r cmd) ≡ meant cluster r
  unfolding to_routing_info slot_addr
  sent_to-to_routing_info cluster all_nodes cmd = refl
  sent_to-to_routing_info cluster all_primaries cmd = refl
  sent_to-to_routing_info cluster random_node cmd = refl
  sent_to-to_routing_info cluster (slot_key key primary) cmd = refl
  sent_to-to_routing_info cluster (slot_key key replica) cmd = refl
  sent_to-to_routing_info cluster (slot_id n primary) cmd = refl
  sent_to-to_routing_info cluster (slot_id n replica) cmd = refl
  sent_to-to_routing_info cluster (by_address host port) cmd = refl

  response_policy_lem : (cmd : Option Cmd) → response_policy topology cmd ≡ command_policy cmd
  unfolding response_policy
  response_policy_lem none = refl
  response_policy_lem (some cmd) = elim (Option-cases (topology.command cmd)) [
    | inl e ↦ rw e refl
    | inr (name, e) ↦ rw e refl
  ]

  policy_of-to_routing_info :
      (r : Route) (cmd : Option Cmd)
      → policy_of (to_routing_info topology r cmd) ≡ expected_policy r cmd
  unfolding to_routing_info
  policy_of-to_routing_info all_nodes cmd = response_policy_lem cmd
  policy_of-to_routing_info all_primaries cmd = response_policy_lem cmd
  policy_of-to_routing_info random_node cmd = refl
  policy_of-to_routing_info (slot_key key t) cmd = refl
  policy_of-to_routing_info (slot_id n t) cmd = refl
  policy_of-to_routing_info (by_address host port) cmd = refl

  to_routing_info-eq_iff :
      (r s : Route) (cmd : Option Cmd)
      → (to_routing_info topology r cmd ≡ to_routing_info topology s cmd) ↔ (resolve r ≡ resolve s)
  to_routing_info-eq_iff r s cmd = (
    λ e. cc (raise-to_routing_info r cmd, raise-to_routing_info s cmd, ap raise e),
    λ e. cc (
      to_routing_info-resolve r cmd,
      to_routing_info-resolve s cmd,
      ap (λ t. to_routing_info topology t cmd) e,
    ),
  )

  -- In every cluster, the routing that a route is lowered to sends a command to the nodes that the
  -- route means: all nodes, all primaries, any one node, the node at an address, or, for a slot or the
  -- slot of a key, its primary or its replica as the slot type says. The replies of several nodes are
  -- combined by the policy for the command's name, if there is a command and a policy. With one
  -- command, two routes are lowered to the same routing exactly when they are the same, or name one
  -- slot and one slot type by key or by number.
  pub to_routing_info_lem :
      {N : Type 0} (cluster : Cluster N) (r s : Route) (cmd : Option Cmd)
      → (sent_to cluster (to_routing_info topology r cmd) ≡ meant cluster r)
        × (policy_of (to_routing_info topology r cmd) ≡ expected_policy r cmd)
        × ((to_routing_info topology r cmd ≡ to_routing_info topology s cmd)
            ↔ (resolve r ≡ resolve s))
  to_routing_info_lem cluster r s cmd = (
    sent_to-to_routing_info cluster r cmd,
    policy_of-to_routing_info r cmd,
    to_routing_info-eq_iff r s cmd,
  )
