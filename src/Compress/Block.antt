-- ===== src/Compress/Block.antt =====
-- The types of internal/compress/livezone.go. A value of one of Go's string types that is none of
-- its constants stands under `other_…`.
use cachy.Base.{Bool, true, false}
use cachy.Text.{Bytes, codes, equal}

pub data Provider : Type 0 where
  openai anthropic : Provider
  other_provider : Bytes → Provider

pub data Stability : Type 0 where
  stable live : Stability
  other_stability : Bytes → Stability

pub data Source : Type 0 where
  system user_message assistant_message tool_result : Source

pub data ContentType : Type 0 where
  text log code diff json : ContentType
  other_content : Bytes → ContentType

pub record Block : Type 0 where
  pub id : Bytes
  pub provider : Provider
  pub path : Bytes
  pub role : Bytes
  pub source : Source
  pub stability : Stability
  pub content_type : ContentType
  pub content : Bytes
  pub selected : Bool

unfoldable pub is_live : Stability → Bool
is_live live = true
is_live stable = false
is_live (other_stability s) = equal s (codes "live")
