-- ===== src/Hooks/Grid/Best.antt =====
-- The fit of a grid is the best of all numbers of columns.
use mattermost_plugin_openta.Base.{
  ℕ, zero, suc, ◌≡◌, refl, ◌∙◌, true, false, ◌⊎◌, inl, inr, Bool-cases,
}
use mattermost_plugin_openta.Hooks.Grid.{
  Numbers, GridFit, Area, empty_fit, fits, tile, size, better, turns, has_room, best_grid_fit,
}

-- What is asked of `>`: it orders the numbers that occur, none of which is `NaN`.
pub record Orders {N : Type 0} (F : Numbers N) : Type 0 where
  pub never : (x : N) → F.greater x x ≡ false
  pub one_way : (x y : N) → F.greater x y ≡ true → F.greater y x ≡ false
  pub chain : (x y z : N) → F.greater x y ≡ false → F.greater y z ≡ false → F.greater x z ≡ false

module _ {N : Type 0} (F : Numbers N) where
  -- No number of columns from one on gives a larger tile than this.
  abbrev pub NoneLarger : Area N → (count left columns : ℕ) → GridFit N → Type 0
  NoneLarger a count zero columns best = Unit
  NoneLarger a count (suc left) columns best =
      (fits F a count columns ≡ true
        → F.greater (size F (tile F a count columns)) (size F best) ≡ false)
      × NoneLarger a count left (suc columns) best

  -- This is the tile of one of them.
  abbrev pub OneOf : Area N → (count left columns : ℕ) → GridFit N → Type 0
  OneOf a count zero columns best = ⊥
  OneOf a count (suc left) columns best =
      ((fits F a count columns ≡ true) × (best ≡ tile F a count columns))
      ⊎ OneOf a count left (suc columns) best

  -- What the loop's turns give, from a fit on.
  record Turned (a : Area N) (count left columns : ℕ) (from best : GridFit N) : Type 0 where
    above : F.greater (size F from) (size F best) ≡ false
    largest : NoneLarger a count left columns best
    found : (best ≡ from) ⊎ OneOf a count left columns best

  -- One turn: the old fit is not larger than the new one, nor is this tile.
  better-above :
      (o : Orders F) (a : Area N) (count columns : ℕ) (best : GridFit N)
      → (F.greater (size F best) (size F (better F a count columns best)) ≡ false)
        × (fits F a count columns ≡ true
            → F.greater (size F (tile F a count columns)) (size F (better F a count columns best))
              ≡ false)
        × ((better F a count columns best ≡ best)
            ⊎ ((fits F a count columns ≡ true)
                × (better F a count columns best ≡ tile F a count columns)))
  better-above o a count columns best = elim (Bool-cases (fits F a count columns)) [
    | inr narrow ↦ simp narrow (o.never _, λ h. cc, inl refl)
    | inl fine ↦ elim (Bool-cases (F.greater (size F (tile F a count columns)) (size F best))) [
      | inl more ↦ simp (fine, more) (o.one_way _ _ more, λ h. o.never _, inr (refl, refl))
      | inr less ↦ simp (fine, less) (o.never _, λ h. refl, inl refl)
    ]
  ]

  turns-Turned :
      (o : Orders F) (a : Area N) (count left columns : ℕ) (best : GridFit N)
      → Turned a count left columns best (turns F a count left columns best)
  turns-Turned o a count zero columns best = record {
    above = o.never _;
    largest = tt;
    found = inl refl;
  }
  turns-Turned o a count (suc left) columns best =
      let next = better F a count columns best in
      let rest = turns-Turned o a count left (suc columns) next in
      let (above, tiled, from) = better-above o a count columns best in
      record {
        above = o.chain _ _ _ above rest.above;
        largest = ((λ fine. o.chain _ _ _ (tiled fine) rest.above), rest.largest);
        found = elim rest.found [
          | inr one ↦ inr (inr one)
          | inl same ↦ elim from [
            | inl kept ↦ inl (same ∙ kept)
            | inr (fine, is) ↦ inr (inl (fine, same ∙ is))
          ]
        ];
      }

  -- In a box with room, whose numbers `>` orders, the fit of a grid of so many tiles is at least as
  -- large as the tile of every number of columns from one to the count that fits the box, and it is
  -- the empty fit or the tile of one of these.
  pub best_grid_fit-NoneLarger :
      (o : Orders F) (a : Area N) (count : ℕ)
      → has_room F a count ≡ true
      → NoneLarger a count count 1 (best_grid_fit F a count)
        × ((best_grid_fit F a count ≡ empty_fit F)
            ⊎ OneOf a count count 1 (best_grid_fit F a count))
  unfolding best_grid_fit
  best_grid_fit-NoneLarger o a count room =
      let all = turns-Turned o a count count 1 (empty_fit F) in simp room (all.largest, all.found)
