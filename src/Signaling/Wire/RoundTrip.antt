-- ===== src/Signaling/Wire/RoundTrip.antt =====
-- A frame that is built, rewritten for the wire and normalised again keeps its name.
use mattermost_plugin_openta.Base.{
  sym, ◌⊎◌, String, ◌≡◌, refl, ◌∙◌, ap, true, false, Option, none, some, ◌==◌, eq_iff,
  if◌then◌else◌, arith, Bool-cases, inl, inr,
}
use mattermost_plugin_openta.Signaling.Value.{
  Value, str, obj, Fields, end, field, get_field, ◌or_else◌,
}
use mattermost_plugin_openta.Signaling.Case.{
  IsCamel, camel_to_snake, snake_to_camel, snake_to_camel-camel_to_snake,
}
use mattermost_plugin_openta.Signaling.Wire.Keys.{
  has_field, ConvertsKeys, KeepsNames, kept, text_present, object_present, has-snake_case,
  get-snake_case_other, has-spread, TopKeys, converted-TopKeys, only_namespace, only_payload,
}
use mattermost_plugin_openta.Signaling.Wire.{
  to_wire, from_wire, Frame, set_field, spread, build_frame, snake_case_action_values,
  snake_case_fields, with_action, with_payload, normalize,
}

abbrev pub frame_name : Option Frame → Option (String × String)
frame_name none = none
frame_name (some f) = some (f.namespace, f.action)

get-set_field :
    (k j : String) (v : Value) (fs : Fields)
    → get_field j (set_field k v fs) ≡ (if k == j then v else get_field j fs)
unfolding set_field
get-set_field k j v end = refl
get-set_field k j v (field i w fs) =
    ground (arith, eq_iff k j, eq_iff i k, eq_iff i j, get-set_field k j v fs)

-- A property that the payload does not have stays as it was.
get-spread :
    (j : String) (fs gs : Fields)
    → has_field j gs ≡ false
    → get_field j (spread fs gs) ≡ get_field j fs
unfolding spread
get-spread j fs end h = refl
get-spread j fs (field k v gs) h =
    get-spread j (set_field k v fs) gs (ground arith) ∙ (get-set_field k j v fs ∙ ground arith)

-- The action is in snake case on the wire.
get-snake_case :
    (a : String) (fs : Fields)
    → get_field "action" fs ≡ str a
    → get_field "action" (snake_case_fields fs) ≡ str (camel_to_snake a)
unfolding snake_case_fields
get-snake_case a end h = cc
get-snake_case a (field k v fs) h = elim (Bool-cases (k == "action")) [
  | inl hit ↦ rw hit (rw (head_value k v fs a hit h) (rw hit))
  | inr miss ↦ rw miss (get-snake_case a fs (rw miss at h))
]
  where
    head_value :
        (k : String) (v : Value) (fs : Fields) (a : String)
        → (k == "action") ≡ true
        → get_field "action" (field k v fs) ≡ str a
        → v ≡ str a
    head_value k v fs a hit h = rw hit at h

built_action :
    (a : String) (payload : Fields)
    → has_field "action" payload ≡ false
    → get_field "action" (spread (field "action" (str a) end) payload) ≡ str a
built_action a payload h = get-spread "action" (field "action" (str a) end) payload h

with_action-name :
    (ns a : String) (v : Value) (fs : Fields)
    → v ≡ str a
    → frame_name (with_action ns v fs) ≡ some (ns, snake_to_camel a)
unfolding with_action
with_action-name ns a v fs e = rw e

or_else-text : (v w : Value) (a : String) → v ≡ str a → (v or_else w) ≡ str a
or_else-text v w a e = rw e

-- No key of the payload takes the name of the action, on the wire or after it.
abbrev pub ActionFree : (f g : String → String) → Fields → Type 0
ActionFree f g payload =
    (k : String) → has_field k payload ≡ true → (f k ≡ "action" → ⊥) × (g (f k) ≡ "action" → ⊥)

-- The fields of a frame.
abbrev inner : String → Fields → Fields
inner a payload = spread (field "action" (str a) end) payload

abbrev top : String → String → Fields → Fields
top ns a payload = field "namespace" (str ns) (field "payload" (obj (inner a payload)) end)

top-TopKeys : (ns a : String) (payload : Fields) → TopKeys (top ns a payload)
top-TopKeys ns a payload i h = elim (Bool-cases ("namespace" == i)) [
  | inl is ↦ inl (sym ((eq_iff "namespace" i).0 is))
  | inr other ↦ inr (sym ((eq_iff "payload" i).0 (ground arith)))
]

inner_key :
    (a : String) (payload : Fields) (i : String)
    → has_field i (inner a payload) ≡ true
    → (i ≡ "action") ⊎ (has_field i payload ≡ true)
inner_key a payload i h = elim (Bool-cases ("action" == i)) [
  | inl is ↦ inl (sym ((eq_iff "action" i).0 is))
  | inr other ↦
      inr (ground (arith, other, sym (has-spread i (field "action" (str a) end) payload) ∙ h))
]

module _ (f g : String → String) (snakecase_keys camelcase_keys : Value → Value)
    (c : ConvertsKeys f snakecase_keys) (d : ConvertsKeys g camelcase_keys) (n : KeepsNames f)
    (m : KeepsNames g) (ns a : String) (payload : Fields) (free : ActionFree f g payload) where
  -- The payload on the wire, and what arrives of it; the same for the frame.
  abbrev sent : Fields
  sent = snake_case_fields (c.fields (inner a payload))

  abbrev arrived : Fields
  arrived = d.fields sent

  abbrev sent_frame : Fields
  sent_frame = snake_case_fields (c.fields (top ns a payload))

  abbrev arrived_frame : Fields
  arrived_frame = d.fields sent_frame

  no_action : has_field "action" payload ≡ false
  no_action = elim (Bool-cases (has_field "action" payload)) [
    | inl has ↦ absurd ((free "action" has).0 n.action)
    | inr none_there ↦ none_there
  ]

  sent_action : get_field "action" sent ≡ str (camel_to_snake a)
  sent_action =
      let built = built_action a payload no_action in
      get-snake_case a (c.fields (inner a payload)) (
        kept f snakecase_keys c "action" (inner a payload) n.action
          (text_present "action" (inner a payload) a built)
          (λ i h e. elim (inner_key a payload i h) [
            | inl is ↦ is
            | inr has ↦ absurd ((free i has).0 e)
          ])
        ∙ (ap snakecase_keys built ∙ c.of_text a))

  arrived_action : get_field "action" arrived ≡ str (camel_to_snake a)
  arrived_action =
      kept g camelcase_keys d "action" sent m.action
        (text_present "action" sent (camel_to_snake a) sent_action)
        (λ i h e.
          let (k, has, named) =
            c.comes_from i (inner a payload)
              (sym (has-snake_case i (c.fields (inner a payload))) ∙ h) in
          elim (inner_key a payload k has) [
            | inl is ↦ sym named ∙ (ap f is ∙ n.action)
            | inr own ↦ absurd ((free k own).1 (ap g named ∙ e))
          ])
      ∙ (ap camelcase_keys sent_action ∙ d.of_text (camel_to_snake a))

  sent_keys : TopKeys sent_frame
  sent_keys i h =
      converted-TopKeys f snakecase_keys c (top ns a payload) n (top-TopKeys ns a payload) i
        (sym (has-snake_case i (c.fields (top ns a payload))) ∙ h)

  sent_namespace : get_field "namespace" sent_frame ≡ str ns
  unfolding snake_case_action_values
  sent_namespace =
      get-snake_case_other "namespace" (c.fields (top ns a payload)) refl
      ∙ ap snake_case_action_values (
          kept f snakecase_keys c "namespace" (top ns a payload) n.namespace refl
            (only_namespace f (top ns a payload) n (top-TopKeys ns a payload))
          ∙ c.of_text ns)

  sent_payload : get_field "payload" sent_frame ≡ obj sent
  unfolding snake_case_action_values
  sent_payload =
      get-snake_case_other "payload" (c.fields (top ns a payload)) refl
      ∙ ap snake_case_action_values (
          kept f snakecase_keys c "payload" (top ns a payload) n.payload refl
            (only_payload f (top ns a payload) n (top-TopKeys ns a payload))
          ∙ c.of_object (inner a payload))

  arrived_namespace : get_field "namespace" arrived_frame ≡ str ns
  arrived_namespace =
      kept g camelcase_keys d "namespace" sent_frame m.namespace
        (text_present "namespace" sent_frame ns sent_namespace)
        (only_namespace g sent_frame m sent_keys)
      ∙ (ap camelcase_keys sent_namespace ∙ d.of_text ns)

  arrived_payload : get_field "payload" arrived_frame ≡ obj arrived
  arrived_payload =
      kept g camelcase_keys d "payload" sent_frame m.payload
        (object_present "payload" sent_frame sent sent_payload)
        (only_payload g sent_frame m sent_keys)
      ∙ (ap camelcase_keys sent_payload ∙ d.of_object sent)

  arrives :
      from_wire camelcase_keys (to_wire snakecase_keys (build_frame ns a payload))
      ≡ obj arrived_frame
  unfolding from_wire to_wire build_frame snake_case_action_values
  arrives =
      ap (λ v. camelcase_keys (snake_case_action_values v)) (c.of_object (top ns a payload))
      ∙ d.of_object sent_frame

  -- A frame keeps its namespace and action from `buildFrame` over `send` and `onmessage` to `normalize`,
  -- the conversions of all keys included, if the action is in camel case (no underscore before a
  -- lower-case letter), and no key of the payload takes the name of the action on the wire or after it.
  -- Of the packages that convert the keys it is asked that they rename an object's properties and
  -- convert their values, keep texts, and leave `namespace`, `payload` and `action` as they are.
  pub normalize-build_frame :
      IsCamel a
      → frame_name
          (normalize (from_wire camelcase_keys (to_wire snakecase_keys (build_frame ns a payload))))
        ≡ some (ns, a)
  unfolding normalize with_payload
  normalize-build_frame camel =
      rw (arrives, arrived_namespace, arrived_payload)
        (with_action-name ns (camel_to_snake a)
            (get_field "action" arrived or_else get_field "message" arrived) arrived
            (or_else-text _ (get_field "message" arrived) (camel_to_snake a) arrived_action)
          ∙ ap (λ b. some (ns, b)) (snake_to_camel-camel_to_snake a camel))
