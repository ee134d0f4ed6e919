-- ===== src/Signaling/Wire/Keys.antt =====
-- What the socket relies on of the packages that convert the keys of a frame (snakecase-keys and
-- camelcase-keys), and the keys of a frame on its way.
use mattermost_plugin_openta.Base.{
  String, ◌≡◌, refl, ◌∙◌, ap, sym, ◌⊎◌, inl, inr, Bool, true, false, ◌==◌, eq_iff, ◌||◌, arith,
  Bool-cases, subst, ◌≢◌,
}
use mattermost_plugin_openta.Signaling.Value.{
  Value, undefined, str, obj, Fields, end, field, get_field,
}
use mattermost_plugin_openta.Signaling.Wire.{
  set_field, spread, action_value, snake_case_action_values, snake_case_fields,
}

abbrev pub has_field : String → Fields → Bool
has_field j end = false
has_field j (field k v fs) = (k == j) || has_field j fs

-- A deep conversion of keys: texts stay, and an object has its properties under their new names, with
-- converted values. What it does where two properties get the same name is not said.
pub record ConvertsKeys (renames : String → String) (convert : Value → Value) : Type 0 where
  pub of_text : (s : String) → convert (str s) ≡ str s
  pub fields : Fields → Fields
  pub of_object : (fs : Fields) → convert (obj fs) ≡ obj (fields fs)
  pub comes_from :
      (j : String) (fs : Fields)
      → has_field j (fields fs) ≡ true
      → (k : String) × (has_field k fs ≡ true) × (renames k ≡ j)
  pub goes_to :
      (k : String) (fs : Fields)
      → has_field k fs ≡ true
      → ((i : String) → has_field i fs ≡ true → renames i ≡ renames k → i ≡ k)
      → get_field (renames k) (fields fs) ≡ convert (get_field k fs)

-- The names of a frame's own properties, words in lower case, stay.
pub record KeepsNames (renames : String → String) : Type 0 where
  pub namespace : renames "namespace" ≡ "namespace"
  pub payload : renames "payload" ≡ "payload"
  pub action : renames "action" ≡ "action"

-- A property whose name stays, and that no other one is renamed to.
pub kept :
    (f : String → String) (convert : Value → Value) (c : ConvertsKeys f convert) (k : String)
    (fs : Fields)
    → f k ≡ k
    → has_field k fs ≡ true
    → ((i : String) → has_field i fs ≡ true → f i ≡ k → i ≡ k)
    → get_field k (c.fields fs) ≡ convert (get_field k fs)
kept f convert c k fs same has only =
    ap (λ j. get_field j (c.fields fs)) (sym same)
    ∙ c.goes_to k fs has (λ i h e. only i h (e ∙ same))

absent : (k : String) (fs : Fields) → has_field k fs ≡ false → get_field k fs ≡ undefined
absent k end h = refl
absent k (field j v fs) h = ground (arith, absent k fs)

present :
    (k : String) (fs : Fields) (v : Value)
    → get_field k fs ≡ v
    → v ≢ undefined
    → has_field k fs ≡ true
present k fs v e n = elim (Bool-cases (has_field k fs)) [
  | inl has ↦ has
  | inr none_there ↦ absurd (n (sym e ∙ absent k fs none_there))
]

pub text_present :
    (k : String) (fs : Fields) (s : String) → get_field k fs ≡ str s → has_field k fs ≡ true
text_present k fs s e = present k fs (str s) e (λ h. cc)

pub object_present : (k : String) (fs gs : Fields) → get_field k fs ≡ obj gs → has_field k fs ≡ true
object_present k fs gs e = present k fs (obj gs) e (λ h. cc)

pub has-snake_case :
    (j : String) (fs : Fields) → has_field j (snake_case_fields fs) ≡ has_field j fs
unfolding snake_case_fields
has-snake_case j end = refl
has-snake_case j (field k v fs) = ap (λ b. (k == j) || b) (has-snake_case j fs)

other_value :
    (k : String) (v : Value)
    → (k == "action") ≡ false
    → action_value k v (snake_case_action_values v) ≡ snake_case_action_values v
unfolding snake_case_action_values
other_value k (str a) h = rw h refl
other_value k _ h = refl

turned : (j : String) → ("action" == j) ≡ false → (j == "action") ≡ false
turned j h = ground (arith, eq_iff "action" j, eq_iff j "action")

pub get-snake_case_other :
    (j : String) (fs : Fields)
    → ("action" == j) ≡ false
    → get_field j (snake_case_fields fs) ≡ snake_case_action_values (get_field j fs)
unfolding snake_case_fields snake_case_action_values
get-snake_case_other j end h = refl
get-snake_case_other j (field k v fs) h = elim (Bool-cases (k == j)) [
  | inl hit ↦ rw hit (
      other_value k v
        (subst (λ x. (x == "action") ≡ false) (sym ((eq_iff k j).0 hit)) (turned j h)))
  | inr miss ↦ rw miss (get-snake_case_other j fs h)
]

has-set_field :
    (k j : String) (v : Value) (fs : Fields)
    → has_field j (set_field k v fs) ≡ ((k == j) || has_field j fs)
unfolding set_field
has-set_field k j v end = refl
has-set_field k j v (field i w fs) =
    ground (arith, eq_iff k j, eq_iff i k, eq_iff i j, has-set_field k j v fs)

pub has-spread :
    (j : String) (fs gs : Fields) → has_field j (spread fs gs) ≡ (has_field j fs || has_field j gs)
unfolding spread
has-spread j fs end = ground arith
has-spread j fs (field k v gs) =
    has-spread j (set_field k v fs) gs
    ∙ (ap (λ b. b || has_field j gs) (has-set_field k j v fs) ∙ ground arith)

abbrev Same : String → String → Type 0
Same s t = s ≡ t

-- Only these two keys.
abbrev pub TopKeys : Fields → Type 0
TopKeys fs = (i : String) → has_field i fs ≡ true → (i ≡ "namespace") ⊎ (i ≡ "payload")

pub converted-TopKeys :
    (f : String → String) (convert : Value → Value) (c : ConvertsKeys f convert) (fs : Fields)
    → KeepsNames f
    → TopKeys fs
    → TopKeys (c.fields fs)
converted-TopKeys f convert c fs n t i h =
    let (k, has, same) = c.comes_from i fs h in
    elim (t k has) [
      | inl e ↦ inl (sym same ∙ (ap f e ∙ n.namespace))
      | inr e ↦ inr (sym same ∙ (ap f e ∙ n.payload))
    ]

pub only_namespace :
    (f : String → String) (fs : Fields)
    → KeepsNames f
    → TopKeys fs
    → (i : String) → has_field i fs ≡ true
    → f i ≡ "namespace"
    → i ≡ "namespace"
only_namespace f fs n t i h e = elim (t i h) [
  | inl is ↦ is
  | inr is ↦ absurd (apart (sym n.payload ∙ (ap f (sym is) ∙ e)))
]
  where
    apart : Same "payload" "namespace" → ⊥
    apart e = let same = (eq_iff "payload" "namespace").1 e in cc

pub only_payload :
    (f : String → String) (fs : Fields)
    → KeepsNames f
    → TopKeys fs
    → (i : String) → has_field i fs ≡ true
    → f i ≡ "payload"
    → i ≡ "payload"
only_payload f fs n t i h e = elim (t i h) [
  | inr is ↦ is
  | inl is ↦ absurd (apart (sym n.namespace ∙ (ap f (sym is) ∙ e)))
]
  where
    apart : Same "namespace" "payload" → ⊥
    apart e = let same = (eq_iff "namespace" "payload").1 e in cc
