-- ===== src/Notify.antt =====
-- backend/internal/notify/notify.go: the outcome of one delivery to a Discord webhook and the list
-- of failure reasons in it, with runFailureReasons of backend/internal/sync/service.go. The texts
-- that Go formats are parameters.
pub mod Reasons
pub mod Secrecy
use apekeeper.Common.{
  ℕ, ◌-◌, String, Bool, not, ◌&&◌, ◌||◌, ltb, leb, ◌==◌, str_eq, if◌then◌else◌, List, [], ◌∷◌, ◌++◌,
  map, length, take,
}
use apekeeper.Domain.{RunStatus, success, partial, failed}
use apekeeper.Sync.Ledger.{SyncRun}

-- Outcome, with "" for a detail that is left out
pub record Outcome : Type 0 where
  pub status : String
  pub detail : String

abbrev pub failure : String → Outcome
failure detail = record { status = "failed"; detail = detail }

-- what the POST gives: an error, which is a timeout or not and has a text with the whole URL in it,
-- or the status of the answer
pub data Delivery : Type 0 where
  unsent : Bool → String → Delivery
  answered : ℕ → Delivery

-- deliveryErrorClass
unfoldable pub delivery_error_class : Bool → String
delivery_error_class timeout = if timeout then "timeout" else "request error"

-- NotifySyncRun after the payload is made; `rejected` is the text for a status
unfoldable pub deliver : (ℕ → String) → Delivery → Outcome
unfolding delivery_error_class
deliver rejected (unsent timeout message) = failure (delivery_error_class timeout)
deliver rejected (answered status) =
    if ltb status 200 || leb 300 status
    then failure (rejected status)
    else record { status = "sent"; detail = "" }

-- NotifySyncRun of a notifier with a webhook URL; `made` says that the payload could be made
unfoldable pub notify_sync_run : (ℕ → String) → (String → Delivery) → Bool → String → Outcome
unfolding deliver
notify_sync_run rejected post made url =
    if str_eq url ""
    then record { status = "skipped"; detail = "" }
    else if made
    then deliver rejected (post url)
    else failure "payload error"

abbrev pub max_failure_reasons : ℕ
max_failure_reasons = 5

-- the lines of failureLines; `more` is the text that counts the rest
unfoldable pub failure_lines : (ℕ → String) → List String → List String
failure_lines more reasons =
    if ltb max_failure_reasons (length reasons)
    then take max_failure_reasons reasons ++ more (length reasons - max_failure_reasons) ∷ []
    else reasons

-- statusColor
unfoldable pub status_color : RunStatus → ℕ
status_color success = 5214010
status_color partial = 13666861
status_color failed = 11024930
status_color (RunStatus.running) = 7041664
status_color (RunStatus.other s) = 7041664

module _ (before : String → String → Bool) (join : String → String → String) where
  -- sort.Strings, by the order `before`
  unfoldable pub insert_reason : String → List String → List String
  insert_reason x [] = x ∷ []
  insert_reason x (y ∷ ys) =
      let rest = insert_reason x ys in if before y x then y ∷ rest else x ∷ y ∷ ys

  unfoldable pub sort_reasons : List String → List String
  unfolding insert_reason
  sort_reasons [] = []
  sort_reasons (x ∷ xs) = insert_reason x (sort_reasons xs)

  -- runFailureReasons; `join` puts the name before its error
  unfoldable pub run_failure_reasons : SyncRun → List String
  unfolding sort_reasons
  run_failure_reasons r =
      let reasons = sort_reasons (map (λ p. join p.0 p.1) r.detail) in
      if not (str_eq r.error_summary "") && length reasons == 0
      then reasons ++ r.error_summary ∷ []
      else reasons
