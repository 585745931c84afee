-- ===== src/Metric/Select.antt =====
-- The choice of SEMP v2 fields: mapItems of internal/semp/helper.go, and getSempV2FieldMapList,
-- getSempV2FieldsToSelect and isSelected of internal/semp/semp.desc.struct.go.
pub mod Valid
use solace_prometheus_export.Prelude.{
  String, Bool, true, Option, none, some, List, [], ◌∷◌, ◌++◌, ◌==◌, if◌then◌else◌, lookup, insert,
  any,
}
use solace_prometheus_export.Prelude.Result.{Result, ok, err, ◌>>=◌}
use solace_prometheus_export.Metric.{Desc}

-- slices.Contains
unfoldable pub contains : List String → String → Bool
contains xs x = any (λ y. y == x) xs

-- The loop that fills `validRawItems`: the set of the map's values.
unfoldable pub raw_items : List (String × String) → List String
raw_items [] = []
raw_items ((key, raw) ∷ m) = raw ∷ raw_items m

unfoldable pub translate_item :
    List (String × String) → String → Option String → Result String String
unfolding contains raw_items
translate_item translate_map item (some translated) = ok translated
translate_item translate_map item none =
    if contains (raw_items translate_map) item then ok item else err item

-- The error carries the item that is not valid.
unfoldable pub map_items : List String → List (String × String) → Result String (List String)
unfolding translate_item
map_items [] translate_map = ok []
map_items (item ∷ items) translate_map = do
  translated ← translate_item translate_map item (lookup item translate_map)
  rest ← map_items items translate_map
  ok (translated ∷ rest)

-- Filled in the order in which `range` visits the descriptions.
field_map_from : List (String × String) → List (String × Desc) → List (String × String)
field_map_from map_list [] = map_list
field_map_from map_list ((key, desc) ∷ descriptions) =
    field_map_from (insert desc.fq_name desc.semp_v2_field map_list) descriptions

unfoldable pub get_semp_v2_field_map_list : List (String × Desc) → List (String × String)
unfolding field_map_from
get_semp_v2_field_map_list descriptions = field_map_from [] descriptions

unfoldable pub add_mandatory : List String → List String → List String
unfolding contains
add_mandatory fields [] = fields
add_mandatory fields (field ∷ mandatory) =
    add_mandatory (if contains fields field then fields else fields ++ (field ∷ [])) mandatory

unfoldable pub get_semp_v2_fields_to_select :
    List String → List String → List (String × Desc) → Result String (List String)
unfolding add_mandatory
get_semp_v2_fields_to_select metric_filter mandatory_fields descriptions = do
  fields ← map_items metric_filter (get_semp_v2_field_map_list descriptions)
  ok (add_mandatory fields mandatory_fields)

unfoldable pub is_selected : Desc → List String → Bool
unfolding contains
is_selected desc [] = true
is_selected desc (f ∷ fields) = contains (f ∷ fields) desc.semp_v2_field
