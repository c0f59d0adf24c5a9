-- ===== src/Github/Dtos.antt =====
-- internal/github/dtos.go: the shapes that GitHub's answers are decoded into. A chain of nested
-- structs with one field each is left out where only its innermost fields are read.
use differ_nvim.Common.{String, Bool, List, Option}
use differ_nvim.Common.Int.{ℤ}

pub record PullDto : Type 0 where
  pub number : ℤ
  pub title : String
  pub user : String
  pub head_ref : String
  pub updated_at : String
  pub draft : Bool
  pub reviewers : List String

pub record FileDto : Type 0 where
  pub filename : String
  pub status : String
  pub additions : ℤ
  pub deletions : ℤ
  pub previous_filename : String

pub record PageInfo : Type 0 where
  pub has_next_page : Bool
  pub end_cursor : String

pub record FileNode : Type 0 where
  pub path : String
  pub viewer_viewed_state : String

pub record PrDetailGql : Type 0 where
  pub title : String
  pub body : String
  pub url : String
  pub state : String
  pub is_draft : Bool
  pub mergeable : String
  pub base_ref_oid : String
  pub head_ref_oid : String
  pub head_ref_name : String
  pub author : String
  pub files : List FileNode
  pub page_info : PageInfo

pub record PrRefsDto : Type 0 where
  pub base : String
  pub head : String

pub record CommentGql : Type 0 where
  pub id : String
  pub full_database_id : String
  pub author : String
  pub body : String
  pub created_at : String
  pub state : String
  pub diff_hunk : String

pub record NewestNode : Type 0 where
  pub id : String
  pub body : String

pub record ThreadNode : Type 0 where
  pub id : String
  pub is_resolved : Bool
  pub is_outdated : Bool
  pub path : String
  pub line : Option ℤ
  pub start_line : Option ℤ
  pub original_line : Option ℤ
  pub diff_side : String
  pub start_side : String
  pub comments : List CommentGql
  pub newest_comment : List NewestNode

pub record ThreadsGql : Type 0 where
  pub nodes : List ThreadNode
  pub page_info : PageInfo

pub record PendingNode : Type 0 where
  pub full_database_id : String
  pub path : String
  pub line : Option ℤ
  pub start_line : Option ℤ
  pub body : String

pub record PendingReviewNode : Type 0 where
  pub id : String
  pub comments : List PendingNode

pub record TimelineNode : Type 0 where
  pub author : String
  pub body : String
  pub created_at : String

pub record ReviewNode : Type 0 where
  pub author : String
  pub state : String
  pub body : String
  pub submitted_at : String

pub record TimelineGql : Type 0 where
  pub comments : List TimelineNode
  pub page_info : PageInfo
  pub reviews : List ReviewNode

pub record CheckContextGql : Type 0 where
  pub typename : String
  pub name : String
  pub status : String
  pub conclusion : String
  pub details_url : String
  pub started_at : String
  pub context : String
  pub state : String
  pub target_url : String
  pub created_at : String

pub record RollupGql : Type 0 where
  pub state : String
  pub contexts : List CheckContextGql

-- The commits of `checksGQL`, each with its rollup if it has one.
pub record ChecksGql : Type 0 where
  pub commits : List (Option RollupGql)

pub record StartReviewLookupGql : Type 0 where
  pub id : String
  pub reviews : List String

pub record AddThreadGql : Type 0 where
  pub id : String
  pub comments : List String

pub record MergeLookupGql : Type 0 where
  pub id : String
  pub merged : Bool
  pub mergeable : String
  pub merge_state_status : String
  pub head_ref : String

pub record MergePrGql : Type 0 where
  pub merged : Bool
  pub oid : String

pub record SetPrStateGql : Type 0 where
  pub state : String
  pub is_draft : Bool
