-- ===== src/Github/Results.antt =====
-- internal/github/results.go: the shapes that the client of the sidecar sees.
use differ_nvim.Common.{String, Bool, List, Option}
use differ_nvim.Common.Int.{ℤ}

pub record Pr : Type 0 where
  pub number : ℤ
  pub title : String
  pub author : String
  pub head_ref : String
  pub updated_at : String
  pub draft : Bool

pub record PrFile : Type 0 where
  pub path : String
  pub status : String
  pub additions : ℤ
  pub deletions : ℤ
  pub previous_path : String
  pub viewed_state : String

pub record PrDetail : Type 0 where
  pub title : String
  pub body : String
  pub author : String
  pub base_sha : String
  pub head_sha : String
  pub head_ref : String
  pub url : String
  pub state : String
  pub draft : Bool
  pub mergeable : String
  pub files : List PrFile

-- `missing` marks a path that is absent at the ref.
pub record FileBlob : Type 0 where
  pub content : String
  pub missing : Bool

pub record FileVersions : Type 0 where
  pub base : FileBlob
  pub head : FileBlob
  pub truncated : Bool

pub record NewestComment : Type 0 where
  pub node_id : String
  pub body : String

pub record ThreadComment : Type 0 where
  pub id : ℤ
  pub node_id : String
  pub author : String
  pub body : String
  pub created_at : String
  pub diff_hunk : String

pub record Thread : Type 0 where
  pub id : ℤ
  pub thread_id : String
  pub path : String
  pub side : String
  pub line : ℤ
  pub start_side : String
  pub start_line : ℤ
  pub outdated : Bool
  pub original_line : ℤ
  pub resolved : Bool
  pub is_pending : Bool
  pub comments : List ThreadComment
  pub comments_truncated : Bool
  pub newest_comment : Option NewestComment

pub record PendingComment : Type 0 where
  pub id : ℤ
  pub path : String
  pub side : String
  pub line : ℤ
  pub start_side : String
  pub start_line : ℤ
  pub body : String

pub record PendingReview : Type 0 where
  pub review_id : Option String
  pub comments : List PendingComment

pub record Check : Type 0 where
  pub name : String
  pub status : String
  pub conclusion : String
  pub url : String
  pub started_at : String

pub record Checks : Type 0 where
  pub rollup : String
  pub checks : List Check

pub record TimelineComment : Type 0 where
  pub author : String
  pub body : String
  pub created_at : String

pub record ReviewSummary : Type 0 where
  pub author : String
  pub state : String
  pub body : String
  pub created_at : String

pub record Timeline : Type 0 where
  pub comments : List TimelineComment
  pub reviews : List ReviewSummary

pub record PostCommentInput : Type 0 where
  pub path : String
  pub side : String
  pub line : ℤ
  pub body : String
  pub start_side : String
  pub start_line : ℤ
  pub in_reply_to : String
  pub review_id : String

pub record PostComment : Type 0 where
  pub id : ℤ
  pub thread_id : String
  pub review_id : String

pub record PostIssueComment : Type 0 where
  pub id : ℤ

pub record ResolveThread : Type 0 where
  pub resolved : Bool

pub record SetFileViewed : Type 0 where
  pub viewed_state : String

pub record Merge : Type 0 where
  pub merged : Bool
  pub sha : String

pub record SetPrState : Type 0 where
  pub state : String

pub record StartReview : Type 0 where
  pub review_id : String

pub record SubmitReview : Type 0 where
  pub id : ℤ
