-- ===== src/Billing/Subscriptions/Notices.antt =====
-- What the events of Stripe make of each account (internal/billing/webhook.go).
use file_cheap.Prelude.{◌≡◌, refl, ap, ◌∙◌, ℕ, true, ◌&&◌, some}
use file_cheap.Prelude.Key.{nat_key}
use file_cheap.Prelude.Map.{lookup}
use file_cheap.Prelude.Action.{◌>>=◌, or_refuse, look, answer}
use file_cheap.Prelude.Action.Leads.{Leads, Leads-or_refuse, Leads-require, Leads-look, Leads-test}
use file_cheap.Billing.Subscriptions.{Account, Book, change_user, cancel_subscription}
use file_cheap.Billing.Subscriptions.Service.{BillingCall, BillingQuery, write, event_failed}
use file_cheap.Billing.Subscriptions.Events.{
  StripeEvent, checkout_completed, subscription_created, subscription_updated, subscription_deleted,
  payment_failed, payment_succeeded, unhandled, Subscription, owner_of, subscribe, renew,
  handle_subscription_created, handle_subscription_updated, handle_subscription_deleted,
  handle_event, WebhookRequest, handle_webhook,
}
use file_cheap.Billing.Subscriptions.Life.{Turn, created, updated, deleted, stripe}
use file_cheap.Billing.Subscriptions.Turns.{Ends, Ends-same, Ends-write}

module _ (call : BillingCall) {book : Book} {j : ℕ} {a : Account} (start : lookup j book ≡ some a)
    (req : WebhookRequest) where
  -- A write for the owner of a subscription.
  owner-Ends :
      (sub : Subscription) (query : BillingQuery) (set : Account → Account)
      → (owner_of call sub book ≡ some j → Turn call book j a (stripe req) (set a))
      → Leads (Ends call book j a (stripe req)) book (
          look (owner_of call sub) >>= λ owner. or_refuse owner event_failed >>= λ user.
          write call query (change_user set user) event_failed)
  owner-Ends sub query set turn =
      Leads-look (Ends call book j a (stripe req)) (owner_of call sub) _ (
        Leads-or_refuse (Ends call book j a (stripe req)) (owner_of call sub book) _ _
          (Ends-same start)
          (λ user owns. Ends-write start query set user _ (λ user_j. turn (owns ∙ ap some user_j))))

  handle_event-Ends :
      (event : StripeEvent)
      → req.is_signed ≡ true
      → req.event ≡ some event
      → Leads (Ends call book j a (stripe req)) book (handle_event call event)
  unfolding handle_event handle_subscription_created handle_subscription_updated
      handle_subscription_deleted answer
  handle_event-Ends (checkout_completed object) signed h =
      Leads-or_refuse (Ends call book j a (stripe req)) object _ _ (Ends-same start)
        (λ session read.
          Leads-test (Ends call book j a (stripe req))
            (session.has_customer && session.has_subscription) _ (Ends-same start))
  handle_event-Ends (subscription_created object) signed h =
      Leads-or_refuse (Ends call book j a (stripe req)) object _ _ (Ends-same start) (λ sub read.
        owner-Ends sub _ (subscribe sub) (λ owns.
          created req sub refl signed (h ∙ ap (λ o. some (subscription_created o)) read) owns refl))
  handle_event-Ends (subscription_updated object) signed h =
      Leads-or_refuse (Ends call book j a (stripe req)) object _ _ (Ends-same start) (λ sub read.
        owner-Ends sub _ (renew sub) (λ owns.
          updated req sub refl signed (h ∙ ap (λ o. some (subscription_updated o)) read) owns refl))
  handle_event-Ends (subscription_deleted object) signed h =
      Leads-or_refuse (Ends call book j a (stripe req)) object _ _ (Ends-same start) (λ sub read.
        owner-Ends sub _ cancel_subscription (λ owns.
          deleted req sub refl signed (h ∙ ap (λ o. some (subscription_deleted o)) read) owns refl))
  handle_event-Ends (payment_failed object) signed h =
      Leads-or_refuse (Ends call book j a (stripe req)) object _ _ (Ends-same start)
        (λ b read. Leads-test (Ends call book j a (stripe req)) b _ (Ends-same start))
  handle_event-Ends (payment_succeeded object) signed h =
      Leads-or_refuse (Ends call book j a (stripe req)) object _ _ (Ends-same start)
        (λ b read. Leads-test (Ends call book j a (stripe req)) b _ (Ends-same start))
  handle_event-Ends unhandled signed h = Ends-same start

  pub handle_webhook-Ends : Leads (Ends call book j a (stripe req)) book (handle_webhook call req)
  unfolding handle_webhook
  handle_webhook-Ends =
      Leads-require (Ends call book j a (stripe req)) call.has_webhook _ _ (Ends-same start)
        (λ there.
          Leads-require (Ends call book j a (stripe req)) req.is_read _ _ (Ends-same start) (λ read.
            Leads-require (Ends call book j a (stripe req)) req.is_signed _ _ (Ends-same start)
              (λ signed.
                Leads-or_refuse (Ends call book j a (stripe req)) req.event _ _ (Ends-same start)
                  (λ event made. handle_event-Ends event signed made))))
