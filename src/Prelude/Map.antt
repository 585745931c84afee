-- ===== src/Prelude/Map.antt =====
-- Go's `map[string]V` as an association list. `range` visits the entries in no fixed order, so
-- theorems speak of `lookup`, or hold of the list in whatever order it has.
use Prim.Native.String.{String}
use mathlib.Core.Path.{◌≡◌, refl}
use mathlib.Core.Bool.{Bool, false, ◌||◌}
use mathlib.Core.Option
use mathlib.Core.Option.{Option, none, some}
use mathlib.Core.List.{List, [], ◌∷◌}
use native.Mathlib.Omega.{arith}
use text.Mathlib.Text.{◌==◌}
use text.Mathlib.TextEquality.{eq_iff}
use solace_prometheus_export.Prelude.Tests.{if◌then◌else◌}

-- What the sweep's test spares.
abbrev pub sift {ℓ} : {V : Type ℓ} → (V → Bool) → Option V → Option V
sift p none = none
sift p (some v) = if p v then none else some v

module _ {ℓ} {V : Type ℓ} where
  -- v, ok := m[k]
  unfoldable pub lookup : String → List (String × V) → Option V
  lookup k [] = none
  lookup k ((j, v) ∷ m) = if j == k then some v else lookup k m

  -- m[k] = v
  unfoldable pub insert : String → V → List (String × V) → List (String × V)
  insert k v [] = (k, v) ∷ []
  insert k v ((j, w) ∷ m) = if j == k then (k, v) ∷ m else (j, w) ∷ insert k v m

  -- delete(m, k)
  unfoldable pub delete : String → List (String × V) → List (String × V)
  delete k [] = []
  delete k ((j, v) ∷ m) = let rest = delete k m in if j == k then rest else (j, v) ∷ rest

  -- for k, v := range m { m[k] = f(v) }
  unfoldable pub modify : (V → V) → List (String × V) → List (String × V)
  modify f [] = []
  modify f ((j, v) ∷ m) = (j, f v) ∷ modify f m

  -- for k, v := range m { if p(v) { delete(m, k) } }
  unfoldable pub delete_if : (V → Bool) → List (String × V) → List (String × V)
  delete_if p [] = []
  delete_if p ((j, v) ∷ m) = let rest = delete_if p m in if p v then rest else (j, v) ∷ rest

  unfoldable pub has_key : String → List (String × V) → Bool
  has_key k [] = false
  has_key k ((j, v) ∷ m) = j == k || has_key k m

  unfoldable pub keys : List (String × V) → List String
  keys [] = []
  keys ((j, v) ∷ m) = j ∷ keys m

  -- No entry has the key.
  abbrev pub KeysFresh : String → List (String × V) → Type 0
  KeysFresh k [] = Unit
  KeysFresh k ((j, v) ∷ m) = ((j == k) ≡ false) × KeysFresh k m

  -- Each key stands once, as in a map.
  abbrev pub KeysDistinct : List (String × V) → Type 0
  KeysDistinct [] = Unit
  KeysDistinct ((j, v) ∷ m) = KeysFresh j m × KeysDistinct m

module _ {ℓ} {V : Type ℓ} where
  pub lookup-insert :
      (inserted asked : String) (new : V) (entries : List (String × V))
      → lookup asked (insert inserted new entries)
        ≡ (if inserted == asked then some new else lookup asked entries)
  unfolding lookup insert
  lookup-insert inserted asked new [] = refl
  lookup-insert inserted asked new ((present, value) ∷ entries) =
      let rest = lookup-insert inserted asked new entries in
      ground (rest, eq_iff present inserted, eq_iff present asked, eq_iff inserted asked, arith)

  pub lookup-delete :
      (deleted asked : String) (entries : List (String × V))
      → lookup asked (delete deleted entries)
        ≡ (if deleted == asked then none else lookup asked entries)
  unfolding lookup delete
  lookup-delete deleted asked [] = ground arith
  lookup-delete deleted asked ((present, value) ∷ entries) =
      let rest = lookup-delete deleted asked entries in
      ground (rest, eq_iff present deleted, eq_iff present asked, eq_iff deleted asked, arith)

  pub lookup-modify :
      (k : String) (f : V → V) (m : List (String × V))
      → lookup k (modify f m) ≡ Option.map f (lookup k m)
  unfolding lookup modify
  lookup-modify k f [] = refl
  lookup-modify k f ((i, w) ∷ m) = ground (arith, lookup-modify k f m)

  pub lookup-fresh : (k : String) (m : List (String × V)) → KeysFresh k m → lookup k m ≡ none
  unfolding lookup
  lookup-fresh k [] h = refl
  lookup-fresh k ((i, w) ∷ m) h = ground (arith, lookup-fresh k m h.1)

  -- What a lookup finds after the sweep: an entry that the sweep's test spares.
  pub lookup-delete_if :
      (k : String) (p : V → Bool) (m : List (String × V))
      → KeysDistinct m
      → lookup k (delete_if p m)
        ≡ elim (lookup k m) [ none ↦ none | some v ↦ if p v then none else some v ]
  unfolding lookup delete_if
  lookup-delete_if k p [] h = refl
  lookup-delete_if k p ((i, w) ∷ m) h =
      ground (arith, eq_iff i k, lookup-delete_if k p m h.1, lookup-fresh i m h.0)

  pub insert-KeysFresh :
      (j k : String) (v : V) (m : List (String × V))
      → (k == j) ≡ false
      → KeysFresh j m
      → KeysFresh j (insert k v m)
  unfolding insert
  insert-KeysFresh j k v [] h f = (h, tt)
  insert-KeysFresh j k v ((i, w) ∷ m) h f = ground (arith, insert-KeysFresh j k v m h f.1)

  pub insert-KeysDistinct :
      (k : String) (v : V) (m : List (String × V)) → KeysDistinct m → KeysDistinct (insert k v m)
  unfolding insert
  insert-KeysDistinct k v [] h = (tt, tt)
  insert-KeysDistinct k v ((i, w) ∷ m) h =
      ground
        (arith, eq_iff i k, eq_iff k i, insert-KeysFresh i k v m, insert-KeysDistinct k v m h.1)

  pub modify-KeysFresh :
      (k : String) (f : V → V) (m : List (String × V)) → KeysFresh k m → KeysFresh k (modify f m)
  unfolding modify
  modify-KeysFresh k f [] h = tt
  modify-KeysFresh k f ((i, w) ∷ m) h = (h.0, modify-KeysFresh k f m h.1)

  pub modify-KeysDistinct :
      (f : V → V) (m : List (String × V)) → KeysDistinct m → KeysDistinct (modify f m)
  unfolding modify
  modify-KeysDistinct f [] h = tt
  modify-KeysDistinct f ((i, w) ∷ m) h = (modify-KeysFresh i f m h.0, modify-KeysDistinct f m h.1)

  pub delete_if-KeysFresh :
      (k : String) (p : V → Bool) (m : List (String × V))
      → KeysFresh k m
      → KeysFresh k (delete_if p m)
  unfolding delete_if
  delete_if-KeysFresh k p [] h = tt
  delete_if-KeysFresh k p ((i, w) ∷ m) h = ground (arith, delete_if-KeysFresh k p m h.1)

  pub delete_if-KeysDistinct :
      (p : V → Bool) (m : List (String × V)) → KeysDistinct m → KeysDistinct (delete_if p m)
  unfolding delete_if
  delete_if-KeysDistinct p [] h = tt
  delete_if-KeysDistinct p ((i, w) ∷ m) h =
      ground (arith, delete_if-KeysFresh i p m h.0, delete_if-KeysDistinct p m h.1)
