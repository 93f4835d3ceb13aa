-- ===== src/Filter/Matching.antt =====
-- internal/filter/engine.go: what `matchesLabelSelector` accepts.
use mathlib.Core.Bool.{true≢false}
use wormsign.Common.{
  ◌≡◌, refl, ap, sym, ◌∙◌, String, true, false, List, [], ◌∷◌, Option, none, some, str_eq, eq_iff,
  any, all, All, Bool-cases, ◌⊎◌, ◌↔◌, ◌≢◌, inl, inr, arith,
}
use wormsign.Common.Keys.{string_eq}
use wormsign.Common.Maps.{lookup}
use wormsign.Model.{StringMap}
use wormsign.Filter.Types.{
  SelectorOperator, op_in, op_not_in, op_exists, op_does_not_exist, other_operator,
  LabelSelectorRequirement, LabelSelector,
}
use wormsign.Filter.Selectors.{
  value_of, text_of, matches_operator, matches_label_requirement, matches_labels,
  matches_label_selector,
}

-- The labels give the key the wanted value; or there are labels, none has the key, and the wanted value
-- is empty.
abbrev pub HasLabel : Option StringMap → String × String → Type 0
HasLabel labels (k, v) =
    (value_of labels k ≡ some v) ⊎ ((labels ≢ none) × (value_of labels k ≡ none) × (v ≡ ""))

abbrev pub IsAmong : String → List String → Type 0
IsAmong v [] = ⊥
IsAmong v (w ∷ ws) = (w ≡ v) ⊎ IsAmong v ws

-- What a requirement with this operator and these values asks of a label, which may be missing.
abbrev pub Allows : SelectorOperator → List String → Option String → Type 0
Allows op_in values label = (v : String) × (label ≡ some v) × IsAmong v values
Allows op_not_in values label =
    (label ≡ none) ⊎ ((v : String) × (label ≡ some v) × (¬ IsAmong v values))
Allows op_exists values label = (v : String) × (label ≡ some v)
Allows op_does_not_exist values label = label ≡ none
Allows (other_operator o) values label = ⊥

-- A selector selects labels that have each of its labels and meet each of its requirements.
pub record Selects (labels : Option StringMap) (selector : LabelSelector) : Type 0 where
  pub labelled : All (HasLabel labels) selector.match_labels
  pub allowed :
      All (λ q. Allows q.operator q.values (value_of labels q.key)) selector.match_expressions

decide-IsAmong :
    (v : String) (ws : List String)
    → (any (λ w. str_eq w v) ws ≡ true × IsAmong v ws)
      ⊎ (any (λ w. str_eq w v) ws ≡ false × (¬ IsAmong v ws))
decide-IsAmong v [] = inr (refl, λ h. absurd h)
decide-IsAmong v (w ∷ ws) = elim (Bool-cases (str_eq w v)) [
  | inl same ↦ inl (ground (arith, same), inl ((eq_iff w v).0 same))
  | inr other ↦ elim (decide-IsAmong v ws) [
    | inl (found, h) ↦ inl (ground (arith, other, found), inr h)
    | inr (missing, h) ↦ inr (
      ground (arith, other, missing),
      λ o. elim o [ inl e ↦ true≢false (sym ((eq_iff w v).1 e) ∙ other) | inr a ↦ h a ],
    )
  ]
]

IsAmong-any : (v : String) (ws : List String) → any (λ w. str_eq w v) ws ≡ true → IsAmong v ws
IsAmong-any v ws e = elim (decide-IsAmong v ws) [
  | inl (_, h) ↦ h
  | inr (f, _) ↦ absurd (true≢false (sym e ∙ f))
]

unlisted_value : (v : String) (ws : List String) → any (λ w. str_eq w v) ws ≡ false → ¬ IsAmong v ws
unlisted_value v ws e = elim (decide-IsAmong v ws) [
  | inl (t, _) ↦ absurd (true≢false (sym t ∙ e))
  | inr (_, h) ↦ h
]

any-IsAmong : (v : String) (ws : List String) → IsAmong v ws → any (λ w. str_eq w v) ws ≡ true
any-IsAmong v ws a = elim (decide-IsAmong v ws) [ inl (t, _) ↦ t | inr (_, h) ↦ absurd (h a) ]

any-IsAmong_not :
    (v : String) (ws : List String) → ¬ IsAmong v ws → any (λ w. str_eq w v) ws ≡ false
any-IsAmong_not v ws n = elim (decide-IsAmong v ws) [ inl (_, h) ↦ absurd (n h) | inr (f, _) ↦ f ]

matches_operator-Allows :
    (o : SelectorOperator) (values : List String) (label : Option String)
    → matches_operator o values label ≡ true
    → Allows o values label
matches_operator-Allows op_in values none h = absurd (true≢false (sym h))
matches_operator-Allows op_in values (some v) h = (v, refl, IsAmong-any v values h)
matches_operator-Allows op_not_in values none h = inl refl
matches_operator-Allows op_not_in values (some v) h =
    inr (v, refl, unlisted_value v values (ground arith))
matches_operator-Allows op_exists values none h = absurd (true≢false (sym h))
matches_operator-Allows op_exists values (some v) h = (v, refl)
matches_operator-Allows op_does_not_exist values none h = refl
matches_operator-Allows op_does_not_exist values (some v) h = absurd (true≢false (sym h))
matches_operator-Allows (other_operator o) values label h = absurd (true≢false (sym h))

Allows-matches_operator :
    (o : SelectorOperator) (values : List String) (label : Option String)
    → Allows o values label
    → matches_operator o values label ≡ true
Allows-matches_operator op_in values label (v, e, h) = rw e (any-IsAmong v values h)
Allows-matches_operator op_not_in values label (inl e) = rw e refl
Allows-matches_operator op_not_in values label (inr (v, e, h)) =
    rw (e, any-IsAmong_not v values h) refl
Allows-matches_operator op_exists values label (v, e) = rw e refl
Allows-matches_operator op_does_not_exist values label e = rw e refl
Allows-matches_operator (other_operator o) values label h = absurd h

label_text :
    (m : StringMap) (k v : String)
    → str_eq (text_of (lookup k m)) v ≡ true
    → HasLabel (some m) (k, v)
label_text m k v h = go (lookup k m) refl ((eq_iff (text_of (lookup k m)) v).0 h)
  where
    go : (o : Option String) → lookup k m ≡ o → text_of (lookup k m) ≡ v → HasLabel (some m) (k, v)
    go (some w) e t = inl (e ∙ ap some (sym (ap text_of e) ∙ t))
    go none e t = inr (λ o. cc, e, sym t ∙ ap text_of e)

text-HasLabel :
    (m : StringMap) (k v : String)
    → HasLabel (some m) (k, v)
    → str_eq (text_of (lookup k m)) v ≡ true
text-HasLabel m k v (inl e) = (eq_iff (text_of (lookup k m)) v).1 (ap text_of e)
text-HasLabel m k v (inr (n, e, empty)) =
    (eq_iff (text_of (lookup k m)) v).1 (ap text_of e ∙ sym empty)

labels_hold :
    (labels : Option StringMap) (wanted : StringMap)
    → matches_labels labels wanted ≡ true
    → All (HasLabel labels) wanted
unfolding matches_labels
labels_hold labels [] h = tt
labels_hold none ((k, v) ∷ wanted) h = absurd (true≢false (sym h))
labels_hold (some m) ((k, v) ∷ wanted) h =
    (label_text m k v (ground arith), labels_hold (some m) wanted (ground arith))

matches_labels-HasLabel :
    (labels : Option StringMap) (wanted : StringMap)
    → All (HasLabel labels) wanted
    → matches_labels labels wanted ≡ true
unfolding matches_labels
matches_labels-HasLabel labels [] h = refl
matches_labels-HasLabel none ((k, v) ∷ wanted) (inl e, hs) = cc
matches_labels-HasLabel none ((k, v) ∷ wanted) (inr (n, _, _), hs) = absurd (n refl)
matches_labels-HasLabel (some m) ((k, v) ∷ wanted) (h, hs) =
    rw (text-HasLabel m k v h) (matches_labels-HasLabel (some m) wanted hs)

allowed_all :
    (labels : Option StringMap) (qs : List LabelSelectorRequirement)
    → all (matches_label_requirement labels) qs ≡ true
    → All (λ q. Allows q.operator q.values (value_of labels q.key)) qs
unfolding matches_label_requirement
allowed_all labels [] h = tt
allowed_all labels (q ∷ qs) h = (
  matches_operator-Allows q.operator q.values (value_of labels q.key) (ground arith),
  allowed_all labels qs (ground arith),
)

all-Allows :
    (labels : Option StringMap) (qs : List LabelSelectorRequirement)
    → All (λ q. Allows q.operator q.values (value_of labels q.key)) qs
    → all (matches_label_requirement labels) qs ≡ true
unfolding matches_label_requirement
all-Allows labels [] h = refl
all-Allows labels (q ∷ qs) (h, hs) =
    rw (Allows-matches_operator q.operator q.values (value_of labels q.key) h)
      (all-Allows labels qs hs)

-- `matchesLabelSelector` accepts labels exactly if the selector selects them: they have each of its
-- labels, where labels that are not nil also have a label they lack if its wanted value is empty; and
-- each of its expressions allows what they give its key, an unknown operator allowing nothing.
pub matches_label_selector-Selects :
    (labels : Option StringMap) (selector : LabelSelector)
    → (matches_label_selector labels selector ≡ true) ↔ Selects labels selector
unfolding matches_label_selector
matches_label_selector-Selects labels selector = (
  λ h. record {
    labelled = labels_hold labels selector.match_labels (ground arith);
    allowed = allowed_all labels selector.match_expressions (ground arith);
  },
  λ s.
      rw
        (
          matches_labels-HasLabel labels selector.match_labels s.labelled,
          all-Allows labels selector.match_expressions s.allowed,
        )
        refl,
)
