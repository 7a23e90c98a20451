-- ===== src/Notify/Secrecy.antt =====
-- What the outcome of a delivery can tell about the webhook.
use apekeeper.Common.{
  ◌≡◌, ◌≢◌, refl, String, Bool, false, str_eq, eq_iff, ℕ, Bool-cases, inl, inr, arith,
}
use apekeeper.Notify.{Delivery, unsent, answered, deliver, notify_sync_run}

-- Two deliveries that end alike, whatever the texts of their errors are.
abbrev pub IsAlike : Delivery → Delivery → Type 0
IsAlike (unsent t m) (unsent u n) = t ≡ u
IsAlike (unsent t m) (answered s) = ⊥
IsAlike (answered s) (unsent t m) = ⊥
IsAlike (answered s) (answered t) = s ≡ t

deliver-alike :
    (rejected : ℕ → String) (a b : Delivery) → IsAlike a b → deliver rejected a ≡ deliver rejected b
unfolding deliver
deliver-alike rejected (unsent t m) (unsent u n) h = rw h refl
deliver-alike rejected (unsent t m) (answered s) h = absurd h
deliver-alike rejected (answered s) (unsent t m) h = absurd h
deliver-alike rejected (answered s) (answered t) h = rw h refl

-- The outcome, which is logged and stored, tells nothing of the webhook: two webhooks at which the
-- delivery ends alike, in a timeout, in another error of any text, or with one status, have the same
-- outcome, although the texts of the errors hold the URLs.
pub notify_sync_run-alike :
    (rejected : ℕ → String) (post post' : String → Delivery) (made : Bool) (url url' : String)
    → url ≢ ""
    → url' ≢ ""
    → IsAlike (post url) (post' url')
    → notify_sync_run rejected post made url ≡ notify_sync_run rejected post' made url'
unfolding notify_sync_run
notify_sync_run-alike rejected post post' made url url' n n' h =
    let e : str_eq url "" ≡ false = ground (arith, n, eq_iff url "") in
    let f : str_eq url' "" ≡ false = ground (arith, n', eq_iff url' "") in
    elim (Bool-cases made) [
      | inl m ↦ rw (e, f, m) (deliver-alike rejected (post url) (post' url') h)
      | inr m ↦ rw (e, f, m) refl
    ]
