-- ===== src/Hooks/Grid.antt =====
-- The tiles of a grid (`bestGridFit` of webapp/src/hooks/use_grid_dimensions.ts), over any numbers with
-- the operations that it uses.
pub mod Best
use Prim.Native.Nat.{◌/◌}
use mattermost_plugin_openta.Base.{
  ℕ, zero, suc, ◌+◌, ◌-◌, Bool, true, false, not, ◌&&◌, ◌||◌, nat_eq, if◌then◌else◌,
}

-- JavaScript's numbers: arithmetic and `<=`, with the natural numbers among them.
pub record Numbers {ℓ} (N : Type ℓ) : Type ℓ where
  pub of_nat : ℕ → N
  pub minus : N → N → N
  pub times : N → N → N
  pub divided : N → N → N
  pub less_equal : N → N → Bool
  -- `>`
  pub greater : N → N → Bool

pub record GridFit {ℓ} (N : Type ℓ) : Type ℓ where
  pub columns : ℕ
  pub tile_width : N
  pub tile_height : N

-- The grid's box, the gap between tiles and their aspect ratio.
pub record Area {ℓ} (N : Type ℓ) : Type ℓ where
  pub width : N
  pub height : N
  pub gap : N
  pub aspect : N

module _ {ℓ} {N : Type ℓ} (F : Numbers N) where
  -- `EMPTY`
  abbrev pub empty_fit : GridFit N
  empty_fit = record { columns = 1; tile_width = F.of_nat 0; tile_height = F.of_nat 0 }

  -- `Math.ceil(count / columns)`
  abbrev rows_of : (count columns : ℕ) → ℕ
  rows_of count columns = (count + columns - 1) / columns

  -- A cell's length, where so many share the length of the box.
  abbrev cell : (length gap : N) → ℕ → N
  cell length gap n = F.divided (F.minus length (F.times gap (F.of_nat (n - 1)))) (F.of_nat n)

  abbrev pub fits : Area N → (count columns : ℕ) → Bool
  fits a count columns =
      let rows = rows_of count columns in
      not (
        F.less_equal (cell a.width a.gap columns) (F.of_nat 0)
        || F.less_equal (cell a.height a.gap rows) (F.of_nat 0))

  -- `Math.min`
  abbrev lower : N → N → N
  lower x y = if F.greater x y then y else x

  -- The tile of this number of columns.
  unfoldable pub tile : Area N → (count columns : ℕ) → GridFit N
  tile a count columns =
      let rows = rows_of count columns in
      let w = lower (cell a.width a.gap columns) (F.times (cell a.height a.gap rows) a.aspect) in
      record { columns = columns; tile_width = w; tile_height = F.divided w a.aspect }

  abbrev pub size : GridFit N → N
  size t = F.times t.tile_width t.tile_height

  -- One turn of the loop.
  abbrev pub better : Area N → (count columns : ℕ) → GridFit N → GridFit N
  better a count columns best =
      let t = tile a count columns in
      if fits a count columns then (if F.greater (size t) (size best) then t else best) else best

  -- The turns from a number of columns on.
  abbrev pub turns : Area N → (count left columns : ℕ) → GridFit N → GridFit N
  turns a count zero columns best = best
  turns a count (suc left) columns best =
      turns a count left (suc columns) (better a count columns best)

  abbrev pub has_room : Area N → (count : ℕ) → Bool
  has_room a count =
      not
        (nat_eq count 0 || F.less_equal a.width (F.of_nat 0) || F.less_equal a.height (F.of_nat 0))

  unfoldable pub best_grid_fit : Area N → (count : ℕ) → GridFit N
  best_grid_fit a count = if has_room a count then turns a count count 1 empty_fit else empty_fit
