-- ===== src/State/Snapshot/Shape/Operations.antt =====
-- frontend/src/types.ts: the interfaces of a mine's operations, which the test on messages does not
-- look at.
use sih.Prelude.{String, List, [], ◌∷◌}
use sih.State.Snapshot.Shape.{
  Shape, finite, text, flag, one_of, list_of, dictionary_of, interface, done, with, nullable,
  optional,
}

-- `Point2D`, lines 186 to 189
unfoldable pub point_2d : Shape
point_2d = interface (with "x_m" finite (with "y_m" finite done))

-- `NodeType`, lines 34 to 34
abbrev node_types : List String
node_types = "BENCH" ∷ "DUMP" ∷ "JUNCTION" ∷ "WAYPOINT" ∷ []

-- `RoadStatus`, lines 35 to 35
abbrev road_statuses : List String
road_statuses = "OPEN" ∷ "RESTRICTED" ∷ "CLOSED" ∷ []

-- `HaulCycleState`, lines 71 to 81
abbrev haul_cycle_states : List String
haul_cycle_states =
    "IDLE" ∷ "TRAVELLING_TO_PICKUP" ∷ "WAITING_FOR_LOADING" ∷ "LOADED" ∷ "TRAVELLING_TO_DUMP"
    ∷ "WAITING_FOR_DUMP" ∷ "DUMPING" ∷ "RETURNING_EMPTY" ∷ "PAUSED" ∷ "EMERGENCY" ∷ []

-- `MineNode`, lines 37 to 45
unfoldable pub mine_node : Shape
mine_node = interface (
    with "node_id" text (
      with "name" text (
        with "x_m" finite (
          with "y_m" finite (
            with "elevation_m" finite (
              with "node_type" (one_of node_types) (with "description" (optional text) (done))))))))

-- `MineEdge`, lines 47 to 61
unfoldable pub mine_edge : Shape
mine_edge = interface (
    with "edge_id" text (
      with "from_node" text (
        with "to_node" text (
          with "distance_m" finite (
            with "gradient_pct" finite (
              with "max_weight_tonnes" finite (
                with "road_status" (one_of road_statuses) (
                  with "speed_limit_kmh" finite (
                    with "risk_penalty" finite (
                      with "lanes" finite (
                        with "is_bidirectional" flag (
                          with "surface" (optional text)
                            (with "segment_name" (optional text) (done))))))))))))))

-- `MineNetwork`, lines 63 to 69
unfoldable pub mine_network : Shape
mine_network = interface (
    with "network_id" text (
      with "name" text (
        with "mine_site" text (
          with "nodes" (dictionary_of mine_node) (with "edges" (dictionary_of mine_edge) (done))))))

-- `VehicleOperationalMetadata`, lines 577 to 598
unfoldable pub vehicle_operational_metadata : Shape
vehicle_operational_metadata = interface (
    with "vehicle_id" text (
      with "callsign" text (
        with "is_primary" flag (
          with "is_simulated" flag (
            with "cycle_state" (one_of haul_cycle_states) (
              with "payload_tonnes" finite (
                with "tare_weight_tonnes" finite (
                  with "total_weight_tonnes" finite (
                    with "elevation_m" finite (
                      with "assigned_pickup" text (
                        with "assigned_dump" text (
                          with "current_destination" text (
                            with "distance_to_destination_m" finite (
                              with "next_instruction" text (
                                with "current_edge_id" (nullable text) (
                                  with "emergency_state" text (
                                    with "total_trips_completed" finite (
                                      with "total_tonnes_moved" finite (
                                        with "target_payload_tonnes" finite
                                          (with "color" text (done)))))))))))))))))))))

-- `TacticalGuidance`, lines 600 to 617
unfoldable pub tactical_guidance : Shape
tactical_guidance = interface (
    with "vehicle_id" text (
      with "callsign" text (
        with "current_destination" text (
          with "distance_remaining_m" finite (
            with "next_instruction" text (
              with "speed_kmh" finite (
                with "target_vehicle_id" text (
                  with "target_callsign" text (
                    with "hazard_distance_m" finite (
                      with "hazard_direction" text (
                        with "closing_velocity_mps" finite (
                          with "threat_level" text (
                            with "advisory_text" text (
                              with "visibility_score" finite (
                                with "visibility_state" text
                                  (with "estimated_sight_distance_m" finite (done)))))))))))))))))

-- `HaulageMetricsSummary`, lines 619 to 629
unfoldable pub haulage_metrics_summary : Shape
haulage_metrics_summary = interface (
    with "total_completed_cycles" finite (
      with "total_ore_moved_tonnes" finite (
        with "avg_cycle_time_minutes" finite (
          with "fleet_utilization_pct" finite (
            with "total_distance_km" finite (
              with "route_compliance_pct" (nullable finite) (
                with "active_fleet_count" finite (
                  with "hourly_production_rate_tph" finite
                    (with "recent_delay_events" (list_of text) (done))))))))))

-- `NavigationRoute`, lines 631 to 646
unfoldable pub navigation_route : Shape
navigation_route = interface (
    with "route_id" text (
      with "vehicle_id" text (
        with "start_node_id" text (
          with "end_node_id" text (
            with "payload_tonnes" finite (
              with "path_nodes" (list_of text) (
                with "edge_ids" (list_of text) (
                  with "total_distance_m" finite (
                    with "estimated_time_s" finite (
                      with "max_gradient_pct" finite (
                        with "average_speed_kmh" finite (
                          with "total_cost" finite (
                            with "waypoints" (list_of point_2d)
                              (with "instructions" (list_of text) (done)))))))))))))))

-- `RerouteAdvisory`, lines 648 to 657
unfoldable pub reroute_advisory : Shape
reroute_advisory = interface (
    with "advisory_id" text (
      with "vehicle_id" text (
        with "timestamp_ms" finite (
          with "trigger_edge_id" text (
            with "trigger_reason" text (
              with "original_route_id" text
                (with "new_route" navigation_route (with "alternate_found" flag (done)))))))))

-- `MineOperationsState`, lines 659 to 668
unfoldable pub mine_operations_state : Shape
mine_operations_state = interface (
    with "network" (nullable mine_network) (
      with "fleet" (dictionary_of vehicle_operational_metadata) (
        with "routes" (dictionary_of navigation_route) (
          with "guidance" (dictionary_of tactical_guidance) (
            with "reroute_advisories" (list_of reroute_advisory) (
              with "analytics_summary" haulage_metrics_summary
                (with "provenance" text (with "network_version" finite (done)))))))))
