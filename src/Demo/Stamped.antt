-- ===== src/Demo/Stamped.antt =====
-- .demo/fake-sidecar/fixtures.go: the operations of `fixture` that stamp times or make ids.
use differ_nvim.Common.{
  ℕ, suc, ◌+◌, String, Bool, false, not, none, some, List, [], ◌∷◌, ◌++◌, ◌==◌, if◌then◌else◌,
}
use differ_nvim.Common.Int.{ℤ, pos}
use differ_nvim.Github.Files.{◌·◌}
use differ_nvim.Github.Results.{
  Pr, PrFile, PrDetail, ThreadComment, Thread, Timeline, Check, Checks, StartReview,
  PostCommentInput, PostComment, PostIssueComment,
}
use differ_nvim.Demo.{Fixture, bare_thread, next_id, viewed_state, join_thread}
use differ_nvim.Demo.Canned.{base_sha, head_sha, pr_url, author, viewer, other}

-- `CreatedAt` and what else is a time of the demo; the comment of the viewer.
abbrev pub viewer_comment : (ℕ → String) → (ℤ → String) → Fixture → String → ThreadComment
viewer_comment ago itoa f body = record {
  id = pos (8000 + suc f.seq);
  node_id = "PRRC_" · itoa (pos (8000 + suc f.seq));
  author = viewer;
  body = body;
  created_at = ago 0;
  diff_hunk = "";
}

abbrev pub drafted_thread : PostCommentInput → String → ThreadComment → Bool → Thread
drafted_thread i thread_id c pending = record bare_thread {
  id = c.id;
  thread_id = thread_id;
  path = i.path;
  side = i.side;
  line = i.line;
  start_side = i.start_side;
  start_line = i.start_line;
  is_pending = pending;
  comments = c ∷ [];
}

module _ (ago : ℕ → String) (itoa : ℤ → String) where
  -- `newFixture`
  unfoldable pub new_fixture : Fixture
  new_fixture = record {
    threads =
        record bare_thread {
          id = pos 7001;
          thread_id = "PRRT_seed1";
          path = "lua/theme.lua";
          side = "RIGHT";
          line = pos 5;
          comments =
              record {
                id = pos 8001;
                node_id = "PRRC_seed1";
                author = other;
                body = "could we pull this accent from the palette instead of hard-coding it here?";
                created_at = ago 3;
                diff_hunk = "";
              }
              ∷ [];
        }
        ∷ [];
    comments =
        record {
          author = other;
          body = "thanks for tackling this, dracula's been on the wishlist for a while.";
          created_at = ago 5;
        }
        ∷ [];
    review_id = "";
    viewed = [];
    seq = 0;
  }

  -- `ListPRs`
  unfoldable pub list_prs : List Pr
  list_prs =
      record {
        number = pos 42;
        title = "feat: add dracula theme";
        author = author;
        head_ref = "feat/dracula-theme";
        updated_at = ago 3;
        draft = false;
      }
      ∷ record {
        number = pos 41;
        title = "fix: palette fallback for missing keys";
        author = other;
        head_ref = "fix/palette-fallback";
        updated_at = ago 26;
        draft = false;
      }
      ∷ []

  -- `GetTimeline`
  unfoldable pub get_timeline : Fixture → Timeline
  get_timeline f = record {
    comments = f.comments;
    reviews =
        record {
          author = other;
          state = "COMMENTED";
          body = "looks close. one inline question on the accent.";
          created_at = ago 3;
        }
        ∷ [];
  }

  abbrev passed : String → Check
  passed name = record {
    name = name;
    status = "COMPLETED";
    conclusion = "SUCCESS";
    url = pr_url · "/checks";
    started_at = ago 3;
  }

  -- `GetChecks`
  unfoldable pub get_checks : Checks
  get_checks = record {
    rollup = "SUCCESS";
    checks = passed "lua / lint" ∷ passed "lua / test" ∷ passed "build" ∷ [];
  }

  -- `StartReview`
  unfoldable pub start_review : Fixture → StartReview × Fixture
  start_review f =
      if f.review_id == ""
      then (
        record { review_id = "PRR_" · itoa (pos (suc f.seq)) },
        next_id (record f { review_id = "PRR_" · itoa (pos (suc f.seq)) }),
      )
      else (record { review_id = f.review_id }, f)

  -- `PostComment` where no thread is joined; an id was made for the comment before.
  unfoldable pub open_thread : PostCommentInput → ThreadComment → Fixture → PostComment × Fixture
  open_thread i c f =
      let thread_id = "PRRT_" · itoa (pos (suc f.seq)) in
      (
        record { id = c.id; thread_id = thread_id; review_id = f.review_id },
        next_id (record f {
          threads = f.threads ++ drafted_thread i thread_id c (not (f.review_id == "")) ∷ [];
        }),
      )

  -- `PostComment`
  unfoldable pub post_comment : PostCommentInput → Fixture → PostComment × Fixture
  unfolding open_thread join_thread
  post_comment i f =
      let c = viewer_comment ago itoa f i.body in
      if not (i.in_reply_to == "")
      then elim (join_thread i.in_reply_to c f.threads) [
        | none ↦ open_thread i c (next_id f)
        | some ts ↦ (
          record { id = c.id; thread_id = i.in_reply_to; review_id = f.review_id },
          next_id (record f { threads = ts }),
        )
      ]
      else open_thread i c (next_id f)

  -- `PostIssueComment`
  unfoldable pub post_issue_comment : String → Fixture → PostIssueComment × Fixture
  post_issue_comment body f = (
    record { id = pos (9000 + suc f.seq) },
    next_id (record f {
      comments = f.comments ++ record { author = viewer; body = body; created_at = ago 0 } ∷ [];
    }),
  )

abbrev file_at : Fixture → String → String → String → ℤ → ℤ → PrFile
file_at f path status previous additions deletions = record {
  path = path;
  status = status;
  additions = additions;
  deletions = deletions;
  previous_path = previous;
  viewed_state = viewed_state f path;
}

-- `GetPR`
unfoldable pub get_pr : Fixture → PrDetail
get_pr f = record {
  title = "feat: add dracula theme";
  body =
      "Switches the default theme to dracula and widens diff context.\n\n- new accent colour, "
      · "pulled into the palette\n- context 10 -> 20";
  author = author;
  base_sha = base_sha;
  head_sha = head_sha;
  head_ref = "feat/dracula-theme";
  url = pr_url;
  state = "OPEN";
  draft = false;
  mergeable = "MERGEABLE";
  files =
      file_at f "lua/theme.lua" "modified" "" (pos 4) (pos 2)
      ∷ file_at f "lua/palette.lua" "modified" "" (pos 1) (pos 0)
      ∷ file_at f "lua/dracula.lua" "renamed" "lua/monokai.lua" (pos 3) (pos 3)
      ∷ [];
}
