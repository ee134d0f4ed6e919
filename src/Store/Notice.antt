-- ===== src/Store/Notice.antt =====
-- webapp/src/store/slice_notice.ts and slice_oauth.ts
use mattermost_plugin_openta.Base.{ℕ, suc, String, Bool, false, Option, none, some}
use mattermost_plugin_openta.Store.Action.{
  Action, NoticeKind, error, notice_set, notice_cleared, set_connected,
}

pub record NoticeState : Type 0 where
  pub message : Option String
  pub kind : NoticeKind
  pub seq : ℕ

abbrev kind_or_error : Option NoticeKind → NoticeKind
kind_or_error none = error
kind_or_error (some k) = k

unfoldable pub notice_reducer : NoticeState → Action → NoticeState
notice_reducer s (notice_set message kind) = record {
  message = some message;
  kind = kind_or_error kind;
  seq = suc s.seq;
}
notice_reducer s notice_cleared = record s { message = none }
notice_reducer s _ = s

pub record OAuthState : Type 0 where
  pub connected : Bool
  pub email : Option String

unfoldable pub oauth_reducer : OAuthState → Action → OAuthState
oauth_reducer s (set_connected connected email) = record { connected = connected; email = email }
oauth_reducer s _ = s

abbrev pub no_notice : NoticeState
no_notice = record { message = none; kind = error; seq = 0 }

abbrev pub not_connected : OAuthState
not_connected = record { connected = false; email = none }
