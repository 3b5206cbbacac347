-- ===== src/PhysicalMapping.antt =====
-- light_engine/mapping/physical.py: `PhysicalMapping`, the layout that it checks when it is made
-- (`_validate`, `_validate_v3_outputs`). A name is a number, and the empty name is 0. What the mapping
-- makes of a frame is in PhysicalMapping/Map.
pub mod Map
pub mod Claims
pub mod Segments
pub mod Pixels
pub mod Kept
pub mod Found
pub mod Mapped
mod Examples
use light_belt.Prelude.{
  ℕ, zero, suc, ◌+◌, ◌*◌, Bool, true, false, Option, none, some, List, [], ◌∷◌, ◌&&◌, ◌||◌, not,
  leb, ◌==◌, if◌then◌else◌, is_empty, is_some, length, map, Result, ok, err, value_error, require,
  ◌>>◌, ◌>>=◌,
}
use light_belt.Prelude.Sets.{elem, distinct, same_set}
use light_belt.Frames.{Address}

pub record AnalogNodeMapping : Type 0 where
  pub node_id : ℕ
  pub zone_id : ℕ
  pub fade_ms : ℕ

pub record DigitalNodeMapping : Type 0 where
  pub node_id : ℕ
  pub address : Address
  pub pixel_count : ℕ
  pub max_udp_payload : ℕ
  pub protocol_version : ℕ
  pub enabled : Bool

-- The words that `validate_direction` accepts, and any other.
pub data Direction : Type 0 where
  forward reverse other_direction : Direction

pub record DigitalSegmentMapping : Type 0 where
  pub segment_id : ℕ
  pub strip_id : ℕ
  pub node_id : ℕ
  pub offset : ℕ
  pub pixel_count : ℕ
  pub direction : Direction

pub record DigitalOutputMapping : Type 0 where
  pub node_id : ℕ
  pub output_id : ℕ
  pub gpio : ℕ
  pub strip_id : ℕ
  pub pixel_count : ℕ
  pub direction : Direction

pub record Strip : Type 0 where
  pub id : ℕ
  pub pixel_count : ℕ

-- Of the layout, what the mapping reads. `one_output` says that `digital_output_policy` is one of
-- "one_output_wled" and "one_output_gpio4".
pub record Layout : Type 0 where
  pub topology_version : ℕ
  pub one_output : Bool
  pub zone_ids : List ℕ
  pub strips : List Strip
  pub analog_nodes : List AnalogNodeMapping
  pub digital_nodes : List DigitalNodeMapping
  pub digital_segments : List DigitalSegmentMapping
  pub digital_outputs : List DigitalOutputMapping

abbrev pub or_else : {A : Type 0} → Option A → Option A → Option A
or_else none other = other
or_else (some a) other = some a

-- `{key(x): x for x in items}.get(k)`: of two items of a key the later one is found.
unfoldable pub dict_get : {A : Type 0} → (A → ℕ) → ℕ → List A → Option A
dict_get key k [] = none
dict_get key k (x ∷ xs) = or_else (dict_get key k xs) (if key x == k then some x else none)

abbrev pub find_node : ℕ → List DigitalNodeMapping → Option DigitalNodeMapping
find_node = dict_get (λ (n : DigitalNodeMapping). n.node_id)

abbrev pub find_strip : ℕ → List Strip → Option Strip
find_strip = dict_get (λ (s : Strip). s.id)

-- `_require_int`
abbrev pub require_int : ℕ → ℕ → Result (Unit {0})
require_int value minimum = require (leb minimum value) value_error

-- `_require_nonempty_str`
abbrev pub require_name : ℕ → Result (Unit {0})
require_name name = require (not (name == 0)) value_error

abbrev pub validate_direction : Direction → Result (Unit {0})
validate_direction forward = ok tt
validate_direction reverse = ok tt
validate_direction other_direction = err value_error

-- A number of the analog nodes that is none or the one of the topology.
abbrev pub right_analog_nodes : Layout → Bool
right_analog_nodes l =
    (length l.analog_nodes == (if l.topology_version == 3 then 1 else 6))
    || (l.one_output && is_empty l.analog_nodes && is_empty l.zone_ids)

unfoldable pub any_not_v3 : List DigitalNodeMapping → Bool
any_not_v3 [] = false
any_not_v3 (n ∷ ns) = not (n.protocol_version == 3) || any_not_v3 ns

unfoldable pub any_v3 : List DigitalNodeMapping → Bool
any_v3 [] = false
any_v3 (n ∷ ns) = (n.protocol_version == 3) || any_v3 ns

-- The loop over the analog nodes, with the node numbers in use; it returns those after it.
unfoldable pub check_analog_nodes : List ℕ → List ℕ → List AnalogNodeMapping → Result (List ℕ)
check_analog_nodes zone_ids used [] = ok used
check_analog_nodes zone_ids used (n ∷ ns) = do
  require_int n.node_id 1
  require_name n.zone_id
  require (elem n.zone_id zone_ids) value_error
  require (not (elem n.node_id used)) value_error
  check_analog_nodes zone_ids (n.node_id ∷ used) ns

-- The loop over the digital nodes.
unfoldable pub check_digital_nodes : List ℕ → List DigitalNodeMapping → Result (Unit {0})
check_digital_nodes used [] = ok tt
check_digital_nodes used (n ∷ ns) = do
  require_int n.node_id 1
  require_int n.address.1 1
  require_int n.pixel_count 1
  require_int n.max_udp_payload 1
  require (not (elem n.node_id used)) value_error
  require (n.protocol_version == 2 || n.protocol_version == 3) value_error
  require (not (n.protocol_version == 2) || leb (n.pixel_count * 3) n.max_udp_payload) value_error
  check_digital_nodes (n.node_id ∷ used) ns

-- The first loop of `_validate_v3_outputs`, with the strips that are mapped so far.
unfoldable pub check_outputs :
    List DigitalNodeMapping → List Strip → List ℕ → List DigitalOutputMapping → Result (List ℕ)
check_outputs nodes strips mapped [] = ok mapped
check_outputs nodes strips mapped (o ∷ os) = do
  require_int o.node_id 1
  require_int o.output_id 1
  require_int o.pixel_count 1
  require_name o.strip_id
  require (of_v3 (find_node o.node_id nodes)) value_error
  require (whole_strip (find_strip o.strip_id strips)) value_error
  validate_direction o.direction
  require (not (elem o.strip_id mapped)) value_error
  check_outputs nodes strips (o.strip_id ∷ mapped) os
  where
    of_v3 : Option DigitalNodeMapping → Bool
    of_v3 none = false
    of_v3 (some n) = n.protocol_version == 3

    whole_strip : Option Strip → Bool
    whole_strip none = false
    whole_strip (some s) = o.pixel_count == s.pixel_count

-- `outputs_by_node.get(node_id, [])`
unfoldable pub outputs_at : ℕ → List DigitalOutputMapping → List DigitalOutputMapping
outputs_at node_id [] = []
outputs_at node_id (o ∷ os) =
    if o.node_id == node_id then o ∷ outputs_at node_id os else outputs_at node_id os

unfoldable pub total_pixels : List DigitalOutputMapping → ℕ
total_pixels [] = 0
total_pixels (o ∷ os) = o.pixel_count + total_pixels os

-- The checks of a node of version 3 on its outputs.
unfoldable pub check_node_outputs :
    DigitalNodeMapping → List DigitalOutputMapping → Result (Unit {0})
check_node_outputs n os = do
  require (not (is_empty os)) value_error
  require (leb (length os) 3) value_error
  require (distinct (map (λ (o : DigitalOutputMapping). o.output_id) os)) value_error
  require (distinct (map (λ (o : DigitalOutputMapping). o.gpio) os)) value_error
  require (total_pixels os == n.pixel_count) value_error

unfoldable pub check_v3_nodes :
    List DigitalOutputMapping → List DigitalNodeMapping → Result (Unit {0})
check_v3_nodes os [] = ok tt
check_v3_nodes os (n ∷ ns) =
    (if n.protocol_version == 3 then check_node_outputs n (outputs_at n.node_id os) else ok tt)
    >> check_v3_nodes os ns

-- `_validate_v3_outputs`
unfoldable pub validate_v3_outputs : Layout → Result (Unit {0})
validate_v3_outputs l = do
  mapped ← check_outputs l.digital_nodes l.strips [] l.digital_outputs
  require (same_set mapped (map (λ (s : Strip). s.id) l.strips)) value_error
  check_v3_nodes l.digital_outputs l.digital_nodes

-- The sets of `occupied`, as one set of a node's number and a pixel.
abbrev pub Occupied : Type 0
Occupied = List (ℕ × ℕ)

unfoldable pub is_occupied : ℕ → ℕ → Occupied → Bool
is_occupied node pixel [] = false
is_occupied node pixel ((n, p) ∷ rest) = (node == n && pixel == p) || is_occupied node pixel rest

-- The loop over the pixels of a segment: `count` pixels from `pixel` on.
unfoldable pub occupy : ℕ → ℕ → ℕ → Occupied → Result Occupied
occupy node pixel zero occupied = ok occupied
occupy node pixel (suc count) occupied =
    require (not (is_occupied node pixel occupied)) value_error
    >> occupy node (pixel + 1) count ((node, pixel) ∷ occupied)

-- The checks of a segment before it occupies its pixels.
unfoldable pub check_segment :
    List DigitalNodeMapping → List Strip → List ℕ → DigitalSegmentMapping → Result (Unit {0})
check_segment nodes strips seen s = do
  require_name s.segment_id
  require (not (elem s.segment_id seen)) value_error
  require_name s.strip_id
  require_int s.node_id 1
  require_int s.pixel_count 1
  validate_direction s.direction
  require (is_some (find_node s.node_id nodes)) value_error
  require (in_strip (find_strip s.strip_id strips)) value_error
  require (in_node (find_node s.node_id nodes)) value_error
  where
    in_strip : Option Strip → Bool
    in_strip none = false
    in_strip (some t) = leb s.pixel_count t.pixel_count

    in_node : Option DigitalNodeMapping → Bool
    in_node none = false
    in_node (some n) = leb (s.offset + s.pixel_count) n.pixel_count

-- The loop over the segments.
unfoldable pub check_segments :
    List DigitalNodeMapping
    → List Strip
    → List ℕ
    → Occupied
    → List DigitalSegmentMapping
    → Result (Unit {0})
check_segments nodes strips seen occupied [] = ok tt
check_segments nodes strips seen occupied (s ∷ ss) = do
  check_segment nodes strips seen s
  more ← occupy s.node_id s.offset s.pixel_count occupied
  check_segments nodes strips (s.segment_id ∷ seen) more ss

-- `_validate`
unfoldable pub validate : Layout → Result (Unit {0})
validate l = do
  require (right_analog_nodes l) value_error
  require (not (l.topology_version == 3 && any_not_v3 l.digital_nodes)) value_error
  used ← check_analog_nodes l.zone_ids [] l.analog_nodes
  check_digital_nodes used l.digital_nodes
  if not (is_empty l.digital_outputs)
      then validate_v3_outputs l
      else require (not (any_v3 l.digital_nodes)) value_error
  check_segments l.digital_nodes l.strips [] [] l.digital_segments
