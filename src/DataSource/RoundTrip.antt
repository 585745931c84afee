-- ===== src/DataSource/RoundTrip.antt =====
-- Targets as texts: DataSource.String and the reading of a value `vpn|item|metric,…`.
use Prim.Native.String.{◌++◌ as ◌<>◌}
use Prim.Native.String.{◌∷◌ as ◌▹◌}
use Prim.Native.String.append
use solace_prometheus_export.Prelude.{
  String, ◌≡◌, ◌≢◌, refl, ap, ◌∙◌, false, none, some, List, [], ◌∷◌, All,
}
use solace_prometheus_export.Text.{contains, split, join, is_empty, trim_space}
use solace_prometheus_export.Text.Split.{split-append, split_whole, split-ne-nil}
use solace_prometheus_export.DataSource.{
  DataSource, to_string, parse_value, of_parts, metric_filter_of,
}

bar_first : (s : String) → ("|" <> s) ≡ ("|" ▹ s)
bar_first s = append.cons "|" "" s ∙ ap (λ t. "|" ▹ t) (append.nil s)

comma_first : (s : String) → ("," <> s) ≡ ("," ▹ s)
comma_first s = append.cons "," "" s ∙ ap (λ t. "," ▹ t) (append.nil s)

split_bar :
    (a s : String) → contains b'|' a ≡ false → split b'|' (a <> ("|" <> s)) ≡ a ∷ split b'|' s
split_bar a s h = ap (λ t. split b'|' (a <> t)) (bar_first s) ∙ split-append "|" a s h

-- Splitting what was joined.
pub split-join :
    (x : String) (xs : List String)
    → All (λ y. contains b',' y ≡ false) (x ∷ xs)
    → split b',' (join "," (x ∷ xs)) ≡ x ∷ xs
unfolding join
split-join x [] h = split_whole "," x h.0
split-join x (y ∷ ys) h =
    ap (λ t. split b',' (x <> t)) (comma_first (join "," (y ∷ ys)))
    ∙ split-append "," x (join "," (y ∷ ys)) h.0
    ∙ ap (λ l. x ∷ l) (split-join y ys h.1)

-- A metric filter that can be written: empty, or names without commas that are not all blank.
abbrev pub IsFilter : List String → Type 0
IsFilter [] = Unit
IsFilter (x ∷ xs) =
    All (λ y. contains b',' y ≡ false) (x ∷ xs)
    × (is_empty (trim_space (join "," (x ∷ xs))) ≡ false)

-- The filters hold no bar, and the metric filter can be written.
pub record IsPlain (ds : DataSource) : Type 0 where
  pub vpn_filter : contains b'|' ds.vpn_filter ≡ false
  pub item_filter : contains b'|' ds.item_filter ≡ false
  pub metric_filter : contains b'|' (join "," ds.metric_filter) ≡ false
  pub is_filter : IsFilter ds.metric_filter

metric_filter_of-join : (fs : List String) → IsFilter fs → metric_filter_of (join "," fs ∷ []) ≡ fs
metric_filter_of-join [] h = unfold join trim_space in refl
metric_filter_of-join (x ∷ xs) h = rw h.1 (split-join x xs h.0)

-- Where the filters hold no bar, and the metric filter is empty or holds names without commas that are
-- not all blank, the text that String writes is the name, `=` and a value, and that value is read back
-- as the same target.
pub to_string-parse_value :
    (ds : DataSource)
    → IsPlain ds
    → (v : String) × (to_string ds ≡ (ds.name <> ("=" <> v))) × (parse_value ds.name v ≡ some ds)
unfolding to_string parse_value
to_string-parse_value ds h = (
  ds.vpn_filter <> ("|" <> (ds.item_filter <> ("|" <> join "," ds.metric_filter))),
  refl,
  ap (of_parts ds.name) parts
      ∙ ap (λ (f : List String). some (record ds { metric_filter = f }))
          (metric_filter_of-join ds.metric_filter h.is_filter),
)
  where
    parts :
        split b'|'
          (ds.vpn_filter <> ("|" <> (ds.item_filter <> ("|" <> join "," ds.metric_filter))))
        ≡ ds.vpn_filter ∷ ds.item_filter ∷ join "," ds.metric_filter ∷ []
    parts =
        split_bar ds.vpn_filter _ h.vpn_filter
        ∙ ap (λ l. ds.vpn_filter ∷ l)
            (split_bar ds.item_filter _ h.item_filter
              ∙ ap (λ l. ds.item_filter ∷ l) (split_whole "|" _ h.metric_filter))

split_rest : (p : String) (r : List String) → r ≢ [] → metric_filter_of (p ∷ r) ≡ []
split_rest p [] h = absurd (h refl)
split_rest p (q ∷ r) h = refl

-- A value with a third bar is accepted, and its metric filter is dropped.
pub extra_bar :
    (name p q r s : String)
    → contains b'|' p ≡ false
    → contains b'|' q ≡ false
    → contains b'|' r ≡ false
    → parse_value name (p <> ("|" <> (q <> ("|" <> (r <> ("|" <> s))))))
      ≡ some (record { name = name; vpn_filter = p; item_filter = q; metric_filter = [] })
unfolding parse_value
extra_bar name p q r s hp hq hr =
    ap (of_parts name)
      (split_bar p _ hp ∙ ap (λ l. p ∷ l) (split_bar q _ hq ∙ ap (λ l. q ∷ l) (split_bar r s hr)))
    ∙ ap
        (λ (f : List String).
          some (record { name = name; vpn_filter = p; item_filter = q; metric_filter = f }))
        (split_rest r (split b'|' s) (split-ne-nil _ s))

-- A value without a bar is refused.
pub parse_value_refused : (name v : String) → contains b'|' v ≡ false → parse_value name v ≡ none
unfolding parse_value
parse_value_refused name v h = ap (of_parts name) (split_whole "|" v h)
