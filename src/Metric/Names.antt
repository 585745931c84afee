-- ===== src/Metric/Names.antt =====
-- Names of metrics: the keys under which scrapes are merged.
use Prim.Native.String.{◌++◌ as ◌<>◌}
use Prim.Native.String.{◌∷◌ as ◌▹◌}
use Prim.Native.String.append
use text.Mathlib.TextLemmas.{append_cancel_left, append_assoc as text_append_assoc}
use mathlib.Core.Path.{ap₂}
use solace_prometheus_export.Prelude.{
  String, ◌≡◌, refl, sym, ◌∙◌, ap, false, Option, some, List, [], ◌∷◌, arith, length, All,
}
use solace_prometheus_export.Text.{contains, cut, join}
use solace_prometheus_export.Text.Split.{cut-append}
use solace_prometheus_export.Metric.{
  Desc, ValueType, PrometheusMetric, new_metric, name, name_of, label_strings,
  validate_label_values,
}

-- One value for each label of the descriptor.
abbrev pub IsWellFormed : {F : Type 0} → PrometheusMetric F → Type 0
IsWellFormed m = length m.label_values ≡ length m.desc.variable_labels

-- The parts of a name, for as many labels as there are values.
abbrev label_string : String → String → String
label_string l v = l <> ("=\"" <> (v <> "\""))

abbrev strings_of : List String → List String → List String
strings_of [] vs = []
strings_of (l ∷ ls) [] = []
strings_of (l ∷ ls) (v ∷ vs) = label_string l v ∷ strings_of ls vs

label_strings-eq :
    (ls vs : List String) → length vs ≡ length ls → label_strings ls vs ≡ some (strings_of ls vs)
unfolding label_strings
label_strings-eq [] vs h = refl
label_strings-eq (l ∷ ls) [] h = absurd (omega arith)
label_strings-eq (l ∷ ls) (v ∷ vs) h = rw (label_strings-eq ls vs (omega arith))

abbrev full_name : String → List String → List String → String
full_name fq [] vs = fq
full_name fq (l ∷ ls) vs = fq <> ("{" <> (join "," (strings_of (l ∷ ls) vs) <> "}"))

name_of-eq :
    (fq : String) (ls vs : List String)
    → length vs ≡ length ls
    → name_of fq ls (label_strings ls vs) ≡ some (full_name fq ls vs)
unfolding name_of
name_of-eq fq [] vs h = refl
name_of-eq fq (l ∷ ls) vs h = rw (label_strings-eq (l ∷ ls) vs h)

-- Name never indexes past the label values of a well-formed metric.
pub name_total :
    {F : Type 0} (m : PrometheusMetric F) → IsWellFormed m → (n : String) × (name m ≡ some n)
unfolding name
name_total m h = (_, name_of-eq m.desc.fq_name m.desc.variable_labels m.label_values h)

-- NewMetric gives a well-formed metric whenever it does not panic.
pub new_metric-IsWellFormed :
    {F : Type 0} (desc : Desc) (t : ValueType) (v : F) (labels : List String)
    (m : PrometheusMetric F)
    → new_metric desc t v labels ≡ some m
    → (m.desc ≡ desc) × (m.label_values ≡ labels) × (m.deprecated ≡ false) × IsWellFormed m
unfolding new_metric validate_label_values
new_metric-IsWellFormed desc t v labels m h = ground arith

-- The values hold no quotation mark.
abbrev pub Unquoted : List String → Type 0
Unquoted = All (λ v. contains b'"' v ≡ false)

cut-quoted : (v s : String) → contains b'"' v ≡ false → cut b'"' (v <> ("\"" <> s)) ≡ some (v, s)
cut-quoted v s h =
    ap (λ r. cut b'"' (v <> r)) (append.cons "\"" "" s ∙ ap (λ r. "\"" ▹ r) (append.nil s))
    ∙ cut-append "\"" v s h

some_pair :
    {v w s t : String}
    → ◌≡◌ {A = Option (String × String)} (some (v, s)) (some (w, t))
    → (v ≡ w) × (s ≡ t)
some_pair h = ground arith

label_string_cancel :
    (l v w s t : String)
    → contains b'"' v ≡ false
    → contains b'"' w ≡ false
    → (label_string l v <> s) ≡ (label_string l w <> t)
    → (v ≡ w) × (s ≡ t)
label_string_cancel l v w s t hv hw h = some_pair (
    sym (cut-quoted v s hv)
    ∙ ap (cut b'"')
        (append_cancel_left "=\"" _ _ (append_cancel_left l _ _ (simp text_append_assoc at h)))
    ∙ cut-quoted w t hw)

joined_cancel :
    (ls vs ws : List String)
    → length vs ≡ length ls
    → length ws ≡ length ls
    → Unquoted vs
    → Unquoted ws
    → (join "," (strings_of ls vs) <> "}") ≡ (join "," (strings_of ls ws) <> "}")
    → vs ≡ ws
unfolding join
joined_cancel [] [] [] hv hw uv uw h = refl
joined_cancel [] (v ∷ vs) ws hv hw uv uw h = absurd (omega arith)
joined_cancel [] [] (w ∷ ws) hv hw uv uw h = absurd (omega arith)
joined_cancel (l ∷ ls) [] ws hv hw uv uw h = absurd (omega arith)
joined_cancel (l ∷ ls) (v ∷ vs) [] hv hw uv uw h = absurd (omega arith)
joined_cancel (l ∷ []) (v ∷ []) (w ∷ []) hv hw uv uw h =
    ap (λ x. x ∷ []) (label_string_cancel l v w "}" "}" uv.0 uw.0 h).0
joined_cancel (l ∷ []) (v ∷ v' ∷ vs) ws hv hw uv uw h = absurd (omega arith)
joined_cancel (l ∷ []) (v ∷ []) (w ∷ w' ∷ ws) hv hw uv uw h = absurd (omega arith)
joined_cancel (l ∷ k ∷ ls) (v ∷ []) ws hv hw uv uw h = absurd (omega arith)
joined_cancel (l ∷ k ∷ ls) (v ∷ v' ∷ vs) (w ∷ []) hv hw uv uw h = absurd (omega arith)
joined_cancel (l ∷ k ∷ ls) (v ∷ v' ∷ vs) (w ∷ w' ∷ ws) hv hw uv uw h =
    let (e, r) = label_string_cancel l v w _ _ uv.0 uw.0 (
      sym (text_append_assoc (label_string l v) _ _)
      ∙ h
      ∙ text_append_assoc (label_string l w) _ _) in
    ap₂ ◌∷◌ e (
      joined_cancel (k ∷ ls) (v' ∷ vs) (w' ∷ ws) (omega arith) (omega arith) uv.1 uw.1 (
        append_cancel_left "," _ _
          (sym (text_append_assoc "," _ _) ∙ r ∙ text_append_assoc "," _ _)))

some_injective : {s t : String} → some s ≡ some t → s ≡ t
some_injective h = ground arith

full_name_cancel :
    (fq : String) (ls vs ws : List String)
    → length vs ≡ length ls
    → length ws ≡ length ls
    → Unquoted vs
    → Unquoted ws
    → full_name fq ls vs ≡ full_name fq ls ws
    → vs ≡ ws
full_name_cancel fq [] vs ws hv hw uv uw h = joined_cancel [] vs ws hv hw uv uw refl
full_name_cancel fq (l ∷ ls) vs ws hv hw uv uw h =
    joined_cancel (l ∷ ls) vs ws hv hw uv uw
      (append_cancel_left "{" _ _ (append_cancel_left fq _ _ h))

-- Two well-formed metrics of one descriptor whose label values hold no quotation mark have the same
-- name only if they have the same label values.
pub name_injective :
    {F : Type 0} (m n : PrometheusMetric F)
    → m.desc ≡ n.desc
    → IsWellFormed m
    → IsWellFormed n
    → Unquoted m.label_values
    → Unquoted n.label_values
    → name m ≡ name n
    → m.label_values ≡ n.label_values
unfolding name
name_injective m n d wm wn um un h =
    full_name_cancel m.desc.fq_name m.desc.variable_labels m.label_values n.label_values wm
      (rw (d, wn)) um un
      (some_injective (
        sym (name_of-eq m.desc.fq_name m.desc.variable_labels m.label_values wm)
        ∙ h
        ∙ ap
            (λ (e : Desc).
              name_of e.fq_name e.variable_labels (label_strings e.variable_labels n.label_values))
            (sym d)
        ∙ name_of-eq m.desc.fq_name m.desc.variable_labels n.label_values (rw (d, wn))))
