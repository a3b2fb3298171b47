-- ===== src/Errors/Laws.antt =====
-- errors.go and nntp.go: which errors the helpers tell apart.
use nntppool.Base.{◌≡◌, ◌⊎◌, true, ◌||◌, none, arith}
use nntppool.Base.{Bytes, ◌↔◌}
use nntppool.Base.Int.{ℤ, pos, negsuc}
use nntppool.Errors.{
  Err, Target, is, is?, article_not_found, auth_required, auth_rejected, service_unavailable,
  with_error_classification, success_code, to_error,
}

-- Attaching a category keeps every match of the cause, and adds exactly those of the category.
pub with_error_classification-is :
    (cause category : Err) (t u : Target)
    → (is category u ≡ true → is cause t ≡ true → is cause u ≡ true)
    → is (with_error_classification cause category t) u ≡ (is cause u || is category u)
unfolding with_error_classification is
with_error_classification-is cause category t u h = ground arith

-- The status codes that stand for an article that is not there.
abbrev pub IsAbsence : ℤ → Type 0
IsAbsence c = (c ≡ pos 423) ⊎ (c ≡ pos 430)

-- `toError` gives no error exactly for 2xx and 3xx; its error matches `ErrArticleNotFound` exactly
-- for 423 and 430, and the other sentinels exactly for their own codes.
pub to_error_matches :
    (c : ℤ) (m : Bytes)
    → ((to_error c m ≡ none) ↔ (success_code c ≡ true))
      × ((is? (to_error c m) article_not_found ≡ true) ↔ IsAbsence c)
      × ((is? (to_error c m) auth_required ≡ true) ↔ (c ≡ pos 480))
      × ((is? (to_error c m) auth_rejected ≡ true) ↔ (c ≡ pos 481))
      × ((is? (to_error c m) service_unavailable ≡ true) ↔ (c ≡ pos 502))
unfolding to_error is
to_error_matches (pos n) m = (
  (λ h. ground arith, λ h. ground arith),
  (λ h. ground arith, λ h. ground arith),
  (λ h. ground arith, λ h. ground arith),
  (λ h. ground arith, λ h. ground arith),
  (λ h. ground arith, λ h. ground arith),
)
to_error_matches (negsuc n) m = (
  (λ h. ground arith, λ h. ground arith),
  (λ h. ground arith, λ h. ground arith),
  (λ h. ground arith, λ h. ground arith),
  (λ h. ground arith, λ h. ground arith),
  (λ h. ground arith, λ h. ground arith),
)
