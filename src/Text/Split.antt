-- ===== src/Text/Split.antt =====
-- Laws of strings.Split, strings.Join and strings.Cut.
use Prim.Native.String.{◌∷◌ as ◌▹◌, ◌++◌ as ◌<>◌}
use Prim.Native.String.append
use text.Mathlib.TextEquality.{Char-path}
use solace_prometheus_export.Prelude.{
  ℕ, String, Char, code, false, ◌≡◌, ◌≢◌, refl, sym, ◌∙◌, some, List, [], ◌∷◌, arith, eqb,
  Bool-cases, inl, inr, ap,
}
use solace_prometheus_export.Text.{cut, contains, split, push_first, join}

-- A part without the separator comes back whole, and the rest is split on its own.
pub split-append :
    (sep : Char) (a s : String)
    → contains (code sep) a ≡ false
    → split (code sep) (a <> (sep ▹ s)) ≡ a ∷ split (code sep) s
unfolding split contains
split-append sep String.[] s h = rw append.nil (ground arith)
split-append sep (c ▹ a) s h = rw (append.cons) (ground (arith, split-append sep a s))

pub split_whole :
    (sep : Char) (a : String) → contains (code sep) a ≡ false → split (code sep) a ≡ a ∷ []
unfolding split contains
split_whole sep String.[] h = refl
split_whole sep (c ▹ a) h = ground (arith, split_whole sep a)

pub cut-append :
    (sep : Char) (a s : String)
    → contains (code sep) a ≡ false
    → cut (code sep) (a <> (sep ▹ s)) ≡ some (a, s)
unfolding cut contains
cut-append sep String.[] s h = rw append.nil (ground arith)
cut-append sep (c ▹ a) s h = rw (append.cons) (ground (arith, cut-append sep a s))

push_first-ne-nil : (c : Char) (ps : List String) → push_first c ps ≢ []
push_first-ne-nil c [] h = cc
push_first-ne-nil c (p ∷ ps) h = cc

nonempty : {ps : List String} → ("" ∷ ps) ≢ []
nonempty h = cc

pub split-ne-nil : (sep : ℕ) (s : String) → split sep s ≢ []
unfolding split
split-ne-nil sep String.[] h = ground arith
split-ne-nil sep (c ▹ s) h = elim (Bool-cases (eqb (code c) sep)) [
  | inl e ↦ absurd (nonempty (rw e at h))
  | inr e ↦ push_first-ne-nil c (split sep s) (rw e at h)
]

join-push_first :
    (sep : String) (c : Char) (ps : List String)
    → ps ≢ []
    → join sep (push_first c ps) ≡ c ▹ join sep ps
unfolding join
join-push_first sep c [] h = absurd (h refl)
join-push_first sep c (p ∷ []) h = refl
join-push_first sep c (p ∷ q ∷ ps) h = append.cons c p (sep <> join sep (q ∷ ps))

join-nil_first :
    (sep : Char) (ps : List String) → ps ≢ [] → join (sep ▹ "") ("" ∷ ps) ≡ sep ▹ join (sep ▹ "") ps
unfolding join
join-nil_first sep [] h = absurd (h refl)
join-nil_first sep (p ∷ ps) h =
    append.nil ((sep ▹ "") <> join (sep ▹ "") (p ∷ ps))
    ∙ append.cons sep "" (join (sep ▹ "") (p ∷ ps))
    ∙ ap (λ t. sep ▹ t) (append.nil (join (sep ▹ "") (p ∷ ps)))

-- strings.Join undoes strings.Split.
pub join-split : (sep : Char) (s : String) → join (sep ▹ "") (split (code sep) s) ≡ s
unfolding split
join-split sep String.[] = unfold join in refl
join-split sep (c ▹ s) = elim (Bool-cases (eqb (code c) (code sep))) [
  | inl e ↦ rw e (
      join-nil_first sep _ (split-ne-nil _ s)
      ∙ ap (λ t. sep ▹ t) (join-split sep s)
      ∙ ap (λ d. d ▹ s) (sym (Char-path c sep (ground arith))))
  | inr e ↦ rw e (join-push_first _ c _ (split-ne-nil _ s) ∙ ap (λ t. c ▹ t) (join-split sep s))
]
