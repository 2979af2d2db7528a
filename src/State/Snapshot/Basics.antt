-- ===== src/State/Snapshot/Basics.antt =====
-- worldStateSnapshot.ts, lines 5 to 101: the tests on one value that the others are built of.
use sih.Prelude.{String, Bool, true, false, List, [], ◌∷◌, ◌&&◌, ◌||◌, every, any, ◌===◌}
use sih.Prelude.Runtime.{Runtime}
use sih.Prelude.Value.{
  Value, undefined, null, boolean, number, string, array, object, items, values, prop,
}

-- `set.has(text)` and `list.includes(text)`
unfoldable pub has : List String → String → Bool
unfolding any
has set text = any (λ s. s === text) set

abbrev pub data_modes : List String
data_modes = "LIVE" ∷ "SIMULATED" ∷ "REPLAY" ∷ []

abbrev pub corridor_states : List String
corridor_states = "GREEN" ∷ "YELLOW" ∷ "RED" ∷ "GREY" ∷ []

abbrev pub emergency_states : List String
emergency_states = "SAFE" ∷ "WARNING" ∷ "CRITICAL" ∷ "EMERGENCY_STOP" ∷ []

abbrev pub sensor_states : List String
sensor_states = "HEALTHY" ∷ "DEGRADED" ∷ "STALE" ∷ "OFFLINE" ∷ []

abbrev pub visibility_states : List String
visibility_states = "GOOD" ∷ "MODERATE" ∷ "LOW" ∷ "VERY_LOW" ∷ []

abbrev pub map_feature_types : List String
map_feature_types =
    "TERRAIN" ∷ "ROAD" ∷ "CENTERLINE" ∷ "BERM" ∷ "HAZARD_ZONE" ∷ "ROUTE" ∷ "INTERSECTION"
    ∷ "STATIC_OBSTACLE" ∷ "SPEED_ZONE" ∷ "START" ∷ "DESTINATION" ∷ []

abbrev pub geometry_types : List String
geometry_types = "POINT" ∷ "POLYLINE" ∷ "POLYGON" ∷ []

abbrev pub simulation_scenarios : List String
simulation_scenarios =
    "HAUL" ∷ "NORMAL" ∷ "FOG" ∷ "OBSTACLE" ∷ "EMERGENCY" ∷ "SCENARIO_1_DENSE_FOG"
    ∷ "SCENARIO_2_VEHICLE_AHEAD" ∷ "SCENARIO_3_OPPOSING_VEHICLE" ∷ "SCENARIO_4_STATIC_OBSTACLE"
    ∷ "SCENARIO_5_ROAD_CLOSURE_REROUTE" ∷ "SCENARIO_6_PAYLOAD_ROUTING"
    ∷ "SCENARIO_7_FLEET_MONITORING" ∷ "SCENARIO_8_HAULAGE_ANALYTICS" ∷ []

module _ {N : Type 0} where
  unfoldable pub is_record : Value N → Bool
  is_record (object fs) = true
  is_record _ = false

  -- `typeof value === "string"` and the like
  unfoldable pub is_string : Value N → Bool
  is_string (string s) = true
  is_string _ = false

  unfoldable pub is_number : Value N → Bool
  is_number (number n) = true
  is_number _ = false

  unfoldable pub is_boolean : Value N → Bool
  is_boolean (boolean b) = true
  is_boolean _ = false

  unfoldable pub is_null : Value N → Bool
  is_null null = true
  is_null _ = false

  unfoldable pub is_undefined : Value N → Bool
  is_undefined undefined = true
  is_undefined _ = false

  -- `value === "text"`
  unfoldable pub is_text : String → Value N → Bool
  is_text t (string s) = t === s
  is_text t _ = false

  -- `typeof value === "string" && SET.has(value)`
  unfoldable pub is_one_of : List String → Value N → Bool
  unfolding has
  is_one_of set (string s) = has set s
  is_one_of set _ = false

  -- `Array.isArray(value) && value.every(p)`
  unfoldable pub is_array_of : (Value N → Bool) → Value N → Bool
  unfolding every
  is_array_of p (array vs) = every p (items vs)
  is_array_of p _ = false

  -- `value.length > 0`, of an array
  unfoldable pub is_non_empty : Value N → Bool
  is_non_empty (array vs) = elim (items vs) [ [] ↦ false | _ ↦ true ]
  is_non_empty _ = false

  -- `isRecord(value) && Object.values(value).every(p)`
  unfoldable pub has_values : (Value N → Bool) → Value N → Bool
  unfolding every
  has_values p (object fs) = every p (values fs)
  has_values p _ = false

  unfoldable pub has_strings : Value N → List String → Bool
  unfolding every
  has_strings record' keys = every (λ key. is_string (prop record' key)) keys

  abbrev pub is_nullable_string : Value N → Bool
  is_nullable_string value = is_null value || is_string value

  unfoldable pub has_nullable_strings : Value N → List String → Bool
  unfolding every
  has_nullable_strings record' keys = every (λ key. is_nullable_string (prop record' key)) keys

  unfoldable pub is_primitive_properties : Value N → Bool
  is_primitive_properties value =
      has_values (λ item. is_string item || is_number item || is_boolean item) value

  unfoldable pub has_mode : Value N → Bool
  has_mode value = is_one_of data_modes value

module _ (js : Runtime) where
  open js use {Num, is_finite}

  unfoldable pub is_finite_number : Value Num → Bool
  is_finite_number (number n) = is_finite n
  is_finite_number _ = false

  abbrev pub is_nullable_finite_number : Value Num → Bool
  is_nullable_finite_number value = is_null value || is_finite_number value

  unfoldable pub has_finite_numbers : Value Num → List String → Bool
  unfolding every
  has_finite_numbers record' keys = every (λ key. is_finite_number (prop record' key)) keys

  unfoldable pub has_nullable_finite_numbers : Value Num → List String → Bool
  unfolding every
  has_nullable_finite_numbers record' keys =
      every (λ key. is_nullable_finite_number (prop record' key)) keys

  unfoldable pub is_point_2d : Value Num → Bool
  unfolding has_finite_numbers
  is_point_2d value = is_record value && has_finite_numbers value ("x_m" ∷ "y_m" ∷ [])

  unfoldable pub is_map_feature : Value Num → Bool
  unfolding has_strings
  is_map_feature value =
      is_record value
      && has_strings value ("feature_id" ∷ "feature_type" ∷ "geometry_type" ∷ "label" ∷ [])
      && is_one_of map_feature_types (prop value "feature_type")
      && is_one_of geometry_types (prop value "geometry_type")
      && is_non_empty (prop value "points")
      && is_array_of is_point_2d (prop value "points")
      && is_primitive_properties (prop value "properties")
