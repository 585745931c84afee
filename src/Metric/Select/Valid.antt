-- ===== src/Metric/Select/Valid.antt =====
-- Which filters of SEMP v2 fields are valid, and what they select.
use solace_prometheus_export.Prelude.{
  String, Bool, true, false, ◌≡◌, refl, sym, List, [], ◌∷◌, ◌++◌, all, any, lookup, Option, some,
  none, Bool-cases, inl, inr, if◌then◌else◌, ◌||◌, eq_iff, ◌==◌, eq_refl, ap, ◌⊎◌, arith,
}
use solace_prometheus_export.Prelude.Result.{Result, ok, err, >>=-eq-ok}
use solace_prometheus_export.Metric.{Desc}
use solace_prometheus_export.Metric.Select.{
  contains, raw_items, translate_item, map_items, add_mandatory, get_semp_v2_fields_to_select,
  get_semp_v2_field_map_list,
}

-- The text is one of the list.
abbrev pub Among : String → List String → Type 0
Among x [] = ⊥
Among x (y ∷ ys) = (y ≡ x) ⊎ Among x ys

pub contains-Among : (xs : List String) (x : String) → contains xs x ≡ true → Among x xs
unfolding contains
contains-Among [] x h = cc
contains-Among (y ∷ ys) x h = elim (Bool-cases (y == x)) [
  | inl e ↦ inl (ground (eq_iff y x, arith))
  | inr e ↦ inr (contains-Among ys x (rw e at h))
]

-- A field of the map.
abbrev is_field : List (String × String) → String → Bool
is_field m item = any (λ entry. entry.1 == item) m

is_field-contains :
    (m : List (String × String)) (item : String) → contains (raw_items m) item ≡ is_field m item
unfolding contains raw_items
is_field-contains [] item = refl
is_field-contains ((key, raw) ∷ m) item = ap (λ b. (raw == item) || b) (is_field-contains m item)

module _ (m : List (String × String)) where
  abbrev is_known : String → Option String → Bool
  is_known item none = is_field m item
  is_known item (some field) = true

  -- An item is the name of a metric, or a field of SEMP v2 already.
  unfoldable pub is_valid_item : String → Bool
  is_valid_item item = is_known item (lookup item m)

  -- The field of the metric that an item names, or the item itself where it names none.
  abbrev pub StandsFor : String → String → Type 0
  StandsFor item field =
      (lookup item m ≡ some field)
      ⊎ ((lookup item m ≡ none) × (is_field m item ≡ true) × (field ≡ item))

  -- The fields of the items, one for each and in their order.
  abbrev pub Translates : List String → List String → Type 0
  Translates [] [] = Unit
  Translates [] (field ∷ fields) = ⊥
  Translates (item ∷ items) [] = ⊥
  Translates (item ∷ items) (field ∷ fields) = StandsFor item field × Translates items fields

  translate-valid :
      (item : String) (found : Option String)
      → lookup item m ≡ found
      → is_known item found ≡ true
      → (field : String) × (translate_item m item found ≡ ok field) × StandsFor item field
  unfolding translate_item
  translate-valid item none l h = (item, rw (is_field-contains m item, h) refl, inr (l, h, refl))
  translate-valid item (some field) l h = (field, refl, inl l)

  translate-refused :
      (item : String) (found : Option String)
      → is_known item found ≡ false
      → translate_item m item found ≡ err item
  unfolding translate_item
  translate-refused item none h = rw (is_field-contains m item, h) refl
  translate-refused item (some field) h = cc

  abbrev pub Maps : List String → Result String (List String) → Type 0
  Maps items r = (fields : List String) × (r ≡ ok fields) × Translates items fields

  -- An item of the list that is not valid is reported.
  abbrev pub Refuses : List String → Result String (List String) → Type 0
  Refuses items r =
      (item : String) × (r ≡ err item) × Among item items × (is_valid_item item ≡ false)

  map_items-valid :
      (items : List String) → all is_valid_item items ≡ true → Maps items (map_items items m)
  unfolding map_items is_valid_item
  map_items-valid [] h = ([], refl, tt)
  map_items-valid (item ∷ items) h = elim (Bool-cases (is_known item (lookup item m))) [
    | inl e ↦
        let (field, p, s) = translate-valid item (lookup item m) refl e in
        let (fields, q, l) = map_items-valid items (rw e at h) in
        (field ∷ fields, rw (p, q) refl, (s, l))
    | inr e ↦ absurd (let k = (rw e at h) in cc)
  ]

  pub map_items-refused :
      (items : List String) → all is_valid_item items ≡ false → Refuses items (map_items items m)
  unfolding map_items is_valid_item
  map_items-refused [] h = cc
  map_items-refused (item ∷ items) h = elim (Bool-cases (is_known item (lookup item m))) [
    | inl e ↦
        let (field, p, s) = translate-valid item (lookup item m) refl e in
        let (bad, q, a, v) = map_items-refused items (rw e at h) in (bad, rw (p, q) refl, inr a, v)
    | inr e ↦ (item, rw (translate-refused item (lookup item m) e) refl, inl refl, e)
  ]

  -- A filter whose items are all valid is mapped to their fields, one for each and in their order: to
  -- the field of the metric that an item names, and to the item where it is a field itself. A filter
  -- that holds an item that is not valid is refused, and the item reported is such an item of it.
  pub map_items_lem :
      (items : List String)
      → (all is_valid_item items ≡ true) × Maps items (map_items items m)
        ⊎ (all is_valid_item items ≡ false) × Refuses items (map_items items m)
  map_items_lem items = elim (Bool-cases (all is_valid_item items)) [
    | inl e ↦ inl (e, map_items-valid items e)
    | inr e ↦ inr (e, map_items-refused items e)
  ]

any-append : (p : String → Bool) (xs ys : List String) → any p xs ≡ true → any p (xs ++ ys) ≡ true
any-append p [] ys h = cc
any-append p (x ∷ xs) ys h = elim (Bool-cases (p x)) [
  | inl e ↦ rw e refl
  | inr e ↦ rw e (any-append p xs ys (rw e at h))
]

any-last :
    (p : String → Bool) (xs : List String) (y : String) → p y ≡ true → any p (xs ++ (y ∷ [])) ≡ true
any-last p [] y h = rw h refl
any-last p (x ∷ xs) y h = elim (Bool-cases (p x)) [
  | inl e ↦ rw e refl
  | inr e ↦ rw e (any-last p xs y h)
]

add_one : List String → String → List String
add_one fields field = if contains fields field then fields else fields ++ (field ∷ [])

add_one-keeps :
    (fields : List String) (field x : String)
    → contains fields x ≡ true
    → contains (add_one fields field) x ≡ true
unfolding add_one contains
add_one-keeps fields field x h = elim (Bool-cases (any (λ y. y == field) fields)) [
  | inl e ↦ rw e h
  | inr e ↦ rw e (any-append (λ y. y == x) fields (field ∷ []) h)
]

add_one-adds :
    (fields : List String) (field : String) → contains (add_one fields field) field ≡ true
unfolding add_one contains
add_one-adds fields field = elim (Bool-cases (any (λ y. y == field) fields)) [
  | inl e ↦ rw e e
  | inr e ↦ rw e (any-last (λ y. y == field) fields field (eq_refl field))
]

add_mandatory-keeps :
    (fields mandatory : List String) (x : String)
    → contains fields x ≡ true
    → contains (add_mandatory fields mandatory) x ≡ true
unfolding add_mandatory add_one
add_mandatory-keeps fields [] x h = h
add_mandatory-keeps fields (field ∷ mandatory) x h =
    add_mandatory-keeps (add_one fields field) mandatory x (add_one-keeps fields field x h)

add_mandatory-adds :
    (fields mandatory : List String)
    → all (contains (add_mandatory fields mandatory)) mandatory ≡ true
unfolding add_mandatory add_one
add_mandatory-adds fields [] = refl
add_mandatory-adds fields (field ∷ mandatory) =
    rw
      (
        add_mandatory-keeps (add_one fields field) mandatory field (add_one-adds fields field),
        add_mandatory-adds (add_one fields field) mandatory,
      )
      refl

contains-cons :
    (x y : String) (xs : List String) → contains xs y ≡ true → contains (x ∷ xs) y ≡ true
unfolding contains
contains-cons x y xs h = elim (Bool-cases (x == y)) [ inl e ↦ rw e refl | inr e ↦ rw e h ]

all-cons :
    (x : String) (xs ys : List String)
    → all (contains xs) ys ≡ true
    → all (contains (x ∷ xs)) ys ≡ true
all-cons x xs [] h = refl
all-cons x xs (y ∷ ys) h = elim (Bool-cases (contains xs y)) [
  | inl e ↦ rw (contains-cons x y xs e) (all-cons x xs ys (rw e at h))
  | inr e ↦ absurd (let k = (rw e at h) in cc)
]

contains_self : (xs : List String) → all (contains xs) xs ≡ true
contains_self [] = refl
contains_self (x ∷ xs) = rw (head_in x xs) (all-cons x xs xs (contains_self xs))
  where
    head_in : (x : String) (xs : List String) → contains (x ∷ xs) x ≡ true
    head_in x xs = unfold contains in rw (eq_refl x) refl

all-keeps :
    (fields mandatory xs : List String)
    → all (contains fields) xs ≡ true
    → all (contains (add_mandatory fields mandatory)) xs ≡ true
all-keeps fields mandatory [] h = refl
all-keeps fields mandatory (x ∷ xs) h = elim (Bool-cases (contains fields x)) [
  | inl e ↦
      rw (add_mandatory-keeps fields mandatory x e) (all-keeps fields mandatory xs (rw e at h))
  | inr e ↦ absurd (let k = (rw e at h) in cc)
]

ok_cancel : (a b : List String) → ◌≡◌ {A = Result String (List String)} (ok a) (ok b) → a ≡ b
ok_cancel a b h = ground arith

-- Fields that are selected hold all the mandatory fields, and each field that an item of the filter
-- stands for.
pub get_semp_v2_fields_to_select-mandatory :
    (metric_filter mandatory : List String) (descriptions : List (String × Desc))
    (fields : List String)
    → get_semp_v2_fields_to_select metric_filter mandatory descriptions ≡ ok fields
    → (all (contains fields) mandatory ≡ true)
      × ((mapped : List String) × (map_items metric_filter (get_semp_v2_field_map_list descriptions)
            ≡ ok mapped)
          × (all (contains fields) mapped ≡ true))
unfolding get_semp_v2_fields_to_select
get_semp_v2_fields_to_select-mandatory metric_filter mandatory descriptions fields h =
    let (mapped, p, e) =
      >>=-eq-ok (map_items metric_filter (get_semp_v2_field_map_list descriptions)) _ h in
    let q = ok_cancel (add_mandatory mapped mandatory) fields e in
    (
      rw (sym q) (add_mandatory-adds mapped mandatory),
      (mapped, p, rw (sym q) (all-keeps mapped mandatory mapped (contains_self mapped))),
    )
