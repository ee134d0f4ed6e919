-- ===== src/Tests/Wire.antt =====
-- A frame on its way, with conversions of keys that rename every property of every object.
use mattermost_plugin_openta.Base.{
  String, ◌≡◌, refl, ap, subst, true, false, ◌==◌, eq_iff, arith, Bool-cases, inl, inr, some,
}
use mattermost_plugin_openta.Signaling.Value.{
  Value, undefined, null, bool, num, str, obj, arr, Fields, end, field, Items, nil, cons, get_field,
}
use mattermost_plugin_openta.Signaling.Case.{camel_to_snake, snake_to_camel, to_lower, to_upper}
use mattermost_plugin_openta.Signaling.Wire.{build_frame, to_wire, from_wire, normalize}
use mattermost_plugin_openta.Signaling.Wire.Keys.{has_field, ConvertsKeys, KeepsNames}
use mattermost_plugin_openta.Signaling.Wire.RoundTrip.{
  frame_name, ActionFree, normalize-build_frame,
}

mutual
  convert : (String → String) → Value → Value
  convert f (obj fs) = obj (convert_fields f fs)
  convert f (arr xs) = arr (convert_items f xs)
  convert f undefined = undefined
  convert f null = null
  convert f (bool b) = bool b
  convert f (num n) = num n
  convert f (str s) = str s

  convert_fields : (String → String) → Fields → Fields
  convert_fields f end = end
  convert_fields f (field k v fs) = field (f k) (convert f v) (convert_fields f fs)

  convert_items : (String → String) → Items → Items
  convert_items f nil = nil
  convert_items f (cons v xs) = cons (convert f v) (convert_items f xs)

comes :
    (f : String → String) (j : String) (fs : Fields)
    → has_field j (convert_fields f fs) ≡ true
    → (k : String) × (has_field k fs ≡ true) × (f k ≡ j)
unfolding convert
comes f j end h = cc
comes f j (field i v fs) h = elim (Bool-cases (f i == j)) [
  | inl hit ↦ (i, ground (arith, eq_iff i i), (eq_iff (f i) j).0 hit)
  | inr miss ↦
      let (k, has, same) = comes f j fs (ground (arith, miss, h)) in (k, ground (arith, has), same)
]

goes :
    (f : String → String) (k : String) (fs : Fields)
    → has_field k fs ≡ true
    → ((i : String) → has_field i fs ≡ true → f i ≡ f k → i ≡ k)
    → get_field (f k) (convert_fields f fs) ≡ convert f (get_field k fs)
unfolding convert
goes f k end h only = cc
goes f k (field i v fs) h only = elim (Bool-cases (i == k)) [
  | inl hit ↦
      let same = (eq_iff i k).0 hit in
      let named : (f i == f k) ≡ true = (eq_iff (f i) (f k)).1 (ap f same) in rw (hit, named) refl
  | inr miss ↦ elim (Bool-cases (f i == f k)) [
    | inl named ↦
        let same = only i (ground (arith, eq_iff i i)) ((eq_iff (f i) (f k)).0 named) in
        let hit = (eq_iff i k).1 same in cc
    | inr apart ↦
        rw (miss, apart)
          (goes f k fs (ground (arith, miss, h)) (λ j has e. only j (ground (arith, has)) e))
  ]
]

convert-ConvertsKeys : (f : String → String) → ConvertsKeys f (convert f)
unfolding convert
convert-ConvertsKeys f = record {
  of_text = λ s. refl;
  fields = convert_fields f;
  of_object = λ fs. refl;
  comes_from = comes f;
  goes_to = goes f;
}

camel_to_snake-KeepsNames : KeepsNames camel_to_snake
unfolding camel_to_snake
camel_to_snake-KeepsNames = record { namespace = refl; payload = refl; action = refl }

snake_to_camel-KeepsNames : KeepsNames snake_to_camel
unfolding snake_to_camel
snake_to_camel-KeepsNames = record { namespace = refl; payload = refl; action = refl }

abbrev target : Fields
target = field "targetId" (str "p1") end

abbrev Free : String → Type 0
Free k = (camel_to_snake k ≡ "action" → ⊥) × (snake_to_camel (camel_to_snake k) ≡ "action" → ⊥)

different : (s : String) → (s == "action") ≡ false → s ≡ "action" → ⊥
different s h e = let same = (eq_iff s "action").1 e in cc

target-ActionFree : ActionFree camel_to_snake snake_to_camel target
unfolding camel_to_snake snake_to_camel to_lower to_upper
target-ActionFree k h =
    subst Free ((eq_iff "targetId" k).0 (ground arith))
      (λ e. different "target_id" refl e, λ e. different "targetId" refl e)

normalize-build_frame_example :
    frame_name (
      normalize (
        from_wire
          (convert snake_to_camel)
          (to_wire (convert camel_to_snake) (build_frame "moderation" "kick" target))))
    ≡ some ("moderation", "kick")
normalize-build_frame_example =
    normalize-build_frame camel_to_snake snake_to_camel (convert camel_to_snake)
      (convert snake_to_camel) (convert-ConvertsKeys camel_to_snake)
      (convert-ConvertsKeys snake_to_camel) camel_to_snake-KeepsNames snake_to_camel-KeepsNames
      "moderation" "kick" target target-ActionFree (refl, (refl, (refl, (refl, tt))))
