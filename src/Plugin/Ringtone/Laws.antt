-- ===== src/Plugin/Ringtone/Laws.antt =====
-- Reading the setting for rings after writing it, and after reading it.
use mattermost_plugin_openta.Base.{
  ◌≡◌, refl, Bool, true, false, lookup, lookup-insert, lookup-erase, Storage, Bool-cases,
  Option-cases, inl, inr,
}
use mattermost_plugin_openta.Plugin.Ringtone.{
  ringtone_setting_key, legacy_ringtone_setting_key, read_ringtone, RingSetting,
  apply_ringtone_local,
}

-- In a storage that can be read and written, the setting reads as it was written, and the read changes
-- nothing.
pub read-apply :
    (b : Bool) (r : RingSetting)
    → r.storage.readable ≡ true
    → r.storage.writable ≡ true
    → read_ringtone (apply_ringtone_local b r).storage ≡ ((apply_ringtone_local b r).storage, b)
unfolding read_ringtone apply_ringtone_local
read-apply true r h k = simp (h, k, lookup-insert) refl
read-apply false r h k = simp (h, k, lookup-insert) refl

-- In any storage, a second read gives what the first gave and changes nothing more, also where the
-- first has moved the value of the old key.
pub read-read : (s : Storage) → read_ringtone (read_ringtone s).0 ≡ read_ringtone s
unfolding read_ringtone
read-read s = elim (Bool-cases s.readable) [
  | inr blind ↦ simp blind refl
  | inl sees ↦ elim (Option-cases (lookup ringtone_setting_key s.entries)) [
    | inr (v, e) ↦ simp (sees, e) refl
    | inl absent ↦ elim (Option-cases (lookup legacy_ringtone_setting_key s.entries)) [
      | inl fresh ↦ simp (sees, absent, fresh) refl
      | inr (v, old) ↦ elim (Bool-cases s.writable) [
        | inr shut ↦ simp (sees, absent, old, shut) refl
        | inl writes ↦ simp (sees, absent, old, writes, lookup-erase, lookup-insert) refl
      ]
    ]
  ]
]
