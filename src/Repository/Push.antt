-- ===== src/Repository/Push.antt =====
-- Push subscriptions: `listPushSubscriptions`, `putPushSubscription`, `deletePushSubscription`.
use noudle_agents.Base.{
  String, Option, none, some, List, Bool, true, false, ◌==◌, keep, if◌then◌else◌,
}
use noudle_agents.Base.Map
use noudle_agents.Base.Map.{values}
use noudle_agents.Repository.State.{PushSubscription}
use noudle_agents.App.{App, gets, modify, pure, ◌>>=◌, ◌>>◌}

unfoldable pub list_push_subscriptions : String → App (List PushSubscription)
list_push_subscriptions workspace_id =
    gets (λ w. keep (λ s. s.workspace_id == workspace_id) (values w.repo.push_subscriptions))

unfoldable pub put_push_subscription : PushSubscription → App (Unit {0})
put_push_subscription s =
    modify (λ r. record r { push_subscriptions = Map.set s.token s r.push_subscriptions })

unfoldable pub delete_found : Option PushSubscription → String → String → App Bool
delete_found none workspace_id token = pure false
delete_found (some s) workspace_id token =
    if s.workspace_id == workspace_id
    then (do
      modify (λ r. record r { push_subscriptions = Map.delete token r.push_subscriptions })
      pure true)
    else pure false

unfoldable pub delete_push_subscription : String → String → App Bool
unfolding delete_found
delete_push_subscription workspace_id token = do
  found ← gets (λ w. Map.get token w.repo.push_subscriptions)
  delete_found found workspace_id token
