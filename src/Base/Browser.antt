-- ===== src/Base/Browser.antt =====
-- `window.localStorage`: a dictionary that may refuse to be read or to be written.
use Prim.Native.String.{String}
use mathlib.Core.Bool.{Bool}
use mattermost_plugin_openta.Base.Tests.{if◌then◌else◌}
use mattermost_plugin_openta.Base.Objects.{Dict, insert}

pub record Storage : Type 0 where
  -- `getItem` does not throw
  pub readable : Bool
  -- `setItem` does not throw
  pub writable : Bool
  pub entries : Dict String

-- `setItem` whose exception is swallowed.
abbrev pub try_set_item : String → String → Storage → Storage
try_set_item key value s =
    if s.writable then record s { entries = insert key value s.entries } else s
