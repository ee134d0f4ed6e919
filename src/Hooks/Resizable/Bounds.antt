-- ===== src/Hooks/Resizable/Bounds.antt =====
-- A window is never narrower than its content.
use mattermost_plugin_openta.Base.{
  ◌||◌, ◌≡◌, refl, Bool, true, Option, none, some, List, [], ◌∷◌, if◌then◌else◌, arith, Bool-cases,
  inl, inr, is_some, subst, sym, ◌∙◌,
}
use mattermost_plugin_openta.Hooks.Pixels.{ℤ, ◌≤ℤ◌, leb_ℤ, max_ℤ, clamp-low}
use mattermost_plugin_openta.Hooks.Resizable.{
  Size, size_or, ResizeOpts, clamp_size, ResizeStart, ResizePointer, Resizable, mount, render,
  on_pointer_down, same_width, resized_to, finish, follow, handle_pointer_up, handle_pointer_move,
  ResizeEvent, renders, pointer_down, pointer_move, pointer_up, step, run,
}

-- The start of a resize has the present minimum width.
abbrev pub HasMin : ℤ → Option ResizeStart → Type 0
HasMin m none = Unit
HasMin m (some s) = s.opts.min_size.width ≡ m

pub record IsWide (r : Resizable) : Type 0 where
  pub wide : r.opts.min_size.width ≤ℤ r.size.width
  pub same : HasMin r.opts.min_size.width r.resize_start

-- The minimum width is not measured anew while the window is resized.
abbrev pub KeepsMin : List ResizeEvent → Resizable → Type 0
KeepsMin [] r = Unit
KeepsMin (renders opts ∷ es) r =
    (is_some r.resize_start ≡ true → opts.min_size.width ≡ r.opts.min_size.width)
    × KeepsMin es (step (renders opts) r)
KeepsMin (e ∷ es) r = KeepsMin es (step e r)

resized-wide :
    (v : Size) (e : ResizePointer) (s : ResizeStart)
    → s.opts.min_size.width ≤ℤ (resized_to v e s).width
unfolding resized_to clamp_size
resized-wide v e s = clamp-low s.opts.min_size.width _ _

finish-IsWide :
    (v : Size) (e : ResizePointer) (o : Option ResizeStart) (r : Resizable)
    → HasMin r.opts.min_size.width o
    → IsWide r
    → IsWide (finish v e o r)
finish-IsWide v e none r h k = k
finish-IsWide v e (some s) r h k = record {
  wide = subst (λ m. m ≤ℤ (resized_to v e s).width) h (resized-wide v e s);
  same = tt;
}

follow-IsWide :
    (v : Size) (e : ResizePointer) (o : Option ResizeStart) (r : Resizable)
    → HasMin r.opts.min_size.width o
    → IsWide r
    → IsWide (follow v e o r)
follow-IsWide v e none r h k = k
follow-IsWide v e (some s) r h k = elim (Bool-cases e.primary) [
  | inl held ↦ simp held (record {
    wide = subst (λ m. m ≤ℤ (resized_to v e s).width) h (resized-wide v e s);
    same = k.same;
  })
  | inr loose ↦ simp loose (finish-IsWide v e (some s) r h k)
]

raised :
    (m n : ℤ) (s : Size)
    → n ≤ℤ s.width
    → m
      ≤ℤ (if same_width m n || leb_ℤ m s.width
          then s
          else record { width = m; height = s.height }).width
raised m n s h = ground arith

same_min : (m n : ℤ) (o : Option ResizeStart) → (is_some o ≡ true → n ≡ m) → HasMin m o → HasMin n o
same_min m n none h k = tt
same_min m n (some s) h k = k ∙ sym (h refl)

render-IsWide :
    (opts : ResizeOpts) (r : Resizable)
    → (is_some r.resize_start ≡ true → opts.min_size.width ≡ r.opts.min_size.width)
    → IsWide r
    → IsWide (render opts r)
unfolding render
render-IsWide opts r h k = record {
  wide = raised opts.min_size.width r.opts.min_size.width r.size k.wide;
  same = same_min r.opts.min_size.width opts.min_size.width r.resize_start h k.same;
}

run_from-IsWide :
    (es : List ResizeEvent) (r : Resizable) → KeepsMin es r → IsWide r → IsWide (run es r)
unfolding run step on_pointer_down handle_pointer_move handle_pointer_up
run_from-IsWide [] r h k = k
run_from-IsWide (renders opts ∷ es) r h k =
    run_from-IsWide es (render opts r) h.1 (render-IsWide opts r h.0 k)
run_from-IsWide (pointer_down e ∷ es) r h k =
    run_from-IsWide es (on_pointer_down e r) h (record { wide = k.wide; same = refl })
run_from-IsWide (pointer_move v e ∷ es) r h k =
    run_from-IsWide es (handle_pointer_move v e r) h (follow-IsWide v e r.resize_start r k.same k)
run_from-IsWide (pointer_up v e ∷ es) r h k =
    run_from-IsWide es (handle_pointer_up v e r) h (finish-IsWide v e r.resize_start r k.same k)

mounted : (m w : ℤ) → m ≤ℤ max_ℤ w m
mounted m w = ground arith

-- From the first render on, whatever the storage held, and through renders and gestures in any order,
-- the window is at least as wide as the minimum of its options, as long as that minimum does not change
-- during a gesture.
pub run-IsWide :
    (opts : ResizeOpts) (default_size : Size) (writable : Bool) (stored : Option Size)
    (es : List ResizeEvent)
    → KeepsMin es (mount opts default_size writable stored)
    → IsWide (run es (mount opts default_size writable stored))
unfolding mount
run-IsWide opts default_size writable stored es h =
    run_from-IsWide es (mount opts default_size writable stored) h
      (record { wide = mounted opts.min_size.width (size_or default_size stored).width; same = tt })
