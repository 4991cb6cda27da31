-- ===== src/Tests/Pages.antt =====
-- A page of actions, and an estimate of usage.
use mail_otter.Base.{◌≤◌, none, some, true, IsPage}
use mail_otter.Action.Listing.{ListInput, list_actions_for_user}
use mail_otter.Action.Listing.Laws.{Listed, Newer, list_actions_for_user_lem}
use mail_otter.Usage.{TextUsage}
use mail_otter.Tests.Data.{ann, shop}

abbrev first_page : ListInput
first_page = record {
  application_id = none;
  status = none;
  cursor = none;
  limit = some 500;
  show_snoozed = true;
}

list_actions_for_user_example :
    let page = (list_actions_for_user 1000 ann first_page shop.actions).0 in
    IsPage (Listed 1000 ann first_page) Newer 100 shop.actions page × (1 ≤ 100) × (100 ≤ 100)
list_actions_for_user_example = list_actions_for_user_lem 1000 ann first_page shop.actions

abbrev usage : TextUsage
usage = record {
  reported_prompt = some 1000;
  reported_completion = some 200;
  reported_total = some 1300;
}
