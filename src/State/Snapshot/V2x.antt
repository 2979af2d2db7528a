-- ===== src/State/Snapshot/V2x.antt =====
-- worldStateSnapshot.ts, lines 398 to 485: the vehicle-to-vehicle and roadside radio.
use sih.Prelude.{Bool, [], ◌∷◌, ◌&&◌, ◌||◌}
use sih.Prelude.Runtime.{Runtime}
use sih.Prelude.Value.{Value, prop}
use sih.State.Snapshot.Basics.{
  is_record, is_boolean, is_null, is_undefined, is_array_of, has_strings, is_finite_number,
  has_finite_numbers, has_nullable_finite_numbers,
}

module _ (js : Runtime) where
  open js use {Num}

  unfoldable pub is_v2x_peer : Value Num → Bool
  unfolding has_strings has_finite_numbers
  is_v2x_peer value =
      is_record value
      && has_strings value ("vehicle_id" ∷ "emergency_state" ∷ "link_status" ∷ [])
      && has_finite_numbers js value (
          "last_seen_ms" ∷ "x_m" ∷ "y_m" ∷ "distance_m" ∷ "speed_mps" ∷ "heading_deg" ∷ "rssi_dbm"
          ∷ [])
      && (is_undefined (prop value "bearing_deg") || is_finite_number js (prop value "bearing_deg"))

  unfoldable pub is_v2x_infrastructure_node : Value Num → Bool
  unfolding has_strings has_finite_numbers
  is_v2x_infrastructure_node value =
      is_record value
      && has_strings value ("rsu_id" ∷ "name" ∷ "status" ∷ [])
      && has_finite_numbers js value
          ("x_m" ∷ "y_m" ∷ "coverage_radius_m" ∷ "active_advisories_count" ∷ [])

  unfoldable pub is_v2x_advisory : Value Num → Bool
  unfolding has_strings has_nullable_finite_numbers
  is_v2x_advisory value =
      is_record value
      && has_strings value
          ("message_id" ∷ "rsu_id" ∷ "rsu_name" ∷ "advisory_type" ∷ "title" ∷ "detail" ∷ [])
      && is_finite_number js (prop value "timestamp_ms")
      && has_nullable_finite_numbers js value
          ("speed_limit_kmh" ∷ "expires_at_ms" ∷ "zone_x_m" ∷ "zone_y_m" ∷ "zone_radius_m" ∷ [])

  unfoldable pub is_optional_payload : Value Num → Bool
  is_optional_payload value = is_undefined value || is_null value || is_record value

  unfoldable pub is_v2x_message : Value Num → Bool
  unfolding has_strings is_optional_payload
  is_v2x_message value =
      is_record value
      && has_strings value ("message_id" ∷ "msg_type" ∷ "source_id" ∷ "target_id" ∷ "summary" ∷ [])
      && is_finite_number js (prop value "timestamp_ms")
      && is_optional_payload (prop value "bsm_payload")
      && is_optional_payload (prop value "advisory_payload")

  unfoldable pub has_v2x_shape : Value Num → Bool
  unfolding has_strings has_finite_numbers
  has_v2x_shape value =
      is_undefined value
      || is_record value
        && is_boolean (prop value "enabled")
        && has_strings value ("node_id" ∷ "protocol_version" ∷ [])
        && has_finite_numbers js value
            ("timestamp_ms" ∷ "tx_packet_count" ∷ "rx_packet_count" ∷ "channel_frequency_mhz" ∷ [])
        && is_array_of is_v2x_peer (prop value "active_peers")
        && is_array_of is_v2x_infrastructure_node (prop value "infrastructure_nodes")
        && is_array_of is_v2x_advisory (prop value "active_advisories")
        && is_array_of is_v2x_message (prop value "recent_messages")
