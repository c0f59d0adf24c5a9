-- ===== src/Handlers/States.antt =====
-- internal/handlers/mutate_pr.go and internal/github/state.go: the states of a pull request, which
-- both packages list.
use differ_nvim.Common.{◌≡◌, ◌↔◌, String, true, arith}
use differ_nvim.Github.Errors.Classes.{is_some}
use differ_nvim.Github.Reviews.{pr_state_mutation}
use differ_nvim.Handlers.{valid_pr_state}

-- The states that `validPRState` lets pass are exactly those that `prStateMutation` has a mutation
-- for, so `SetPRState` never refuses a state that its method has accepted.
pub valid_pr_state-mutation_iff :
    (state : String) → (valid_pr_state state ≡ true) ↔ (is_some (pr_state_mutation state) ≡ true)
unfolding valid_pr_state pr_state_mutation
valid_pr_state-mutation_iff state = (λ h. ground arith, λ h. ground arith)
