-- ===== src/Handlers/Anchors.antt =====
-- internal/handlers/mutate_comments.go: what `validateAnchor` accepts.
use differ_nvim.Common.{◌≡◌, ◌↔◌, ◌⊎◌, String, true, false, none, ◌==◌, arith, text_eq}
use differ_nvim.Common.Int.{ℤ, pos, negsuc, eqb_ℤ, ◌<ℤ◌}
use differ_nvim.Handlers.{PostCommentParams, valid_side, validate_range, validate_anchor}

-- A text that names a side of a diff.
abbrev pub IsSide : String → Type 0
IsSide side = (side ≡ "LEFT") ⊎ (side ≡ "RIGHT")

-- What GitHub needs of an anchor: a path, a known side, a positive end line, and either no start or
-- one that is positive and strictly before the end, on a known side or on the end's.
pub record Anchor (p : PostCommentParams) : Type 0 where
  pub path_given : (p.path == "") ≡ false
  pub side_known : IsSide p.side
  pub line_positive : pos 0 <ℤ p.line
  pub range :
      ((p.start_line ≡ pos 0) × (p.start_side ≡ ""))
      ⊎ ((pos 0 <ℤ p.start_line)
          × (p.start_line <ℤ p.line)
          × ((p.start_side ≡ "") ⊎ IsSide p.start_side))

IsSide-iff : (side : String) → (valid_side side ≡ true) ↔ IsSide side
unfolding valid_side
IsSide-iff side =
    let l = text_eq side "LEFT" in
    let r = text_eq side "RIGHT" in (λ h. ground arith, λ h. ground arith)

zero_iff : (n : ℤ) → (eqb_ℤ n (pos 0) ≡ true) ↔ (n ≡ pos 0)
zero_iff (pos n) = (λ h. ground arith, λ h. ground arith)
zero_iff (negsuc n) = (λ h. ground arith, λ h. ground arith)

sound : (p : PostCommentParams) → validate_anchor p ≡ none → Anchor p
unfolding validate_anchor validate_range
sound p h =
    let s = IsSide-iff p.side in
    let t = IsSide-iff p.start_side in
    let z = zero_iff p.start_line in
    let e = text_eq p.start_side "" in
    record {
      path_given = ground arith;
      side_known = ground arith;
      line_positive = ground arith;
      range = ground arith;
    }

complete : (p : PostCommentParams) → Anchor p → validate_anchor p ≡ none
unfolding validate_anchor validate_range
complete p a =
    let s = IsSide-iff p.side in
    let t = IsSide-iff p.start_side in
    let z = zero_iff p.start_line in
    let e = text_eq p.start_side "" in
    let pg = a.path_given in
    let sk = a.side_known in let lp = a.line_positive in let rg = a.range in ground arith

-- `validateAnchor` accepts a comment exactly if its anchor is one that GitHub can resolve: a path, a
-- side, a positive line, and a range that starts strictly before it ends or no range.
pub validate_anchor-none_iff : (p : PostCommentParams) → (validate_anchor p ≡ none) ↔ Anchor p
validate_anchor-none_iff p = (sound p, complete p)
