-- ===== src/Engine/Router/Examples.antt =====
-- Texts as qingtian_engine/router.py reads them.
use qingtian_ai.Engine.Router.{
  explicit_owner_role, first_route, is_role, role_defaults, route_task, search_role,
}
use qingtian_ai.Engine.Texts.{any_in, contains, starts_with}
use qingtian_ai.Prelude.{any, is_digit, is_space, none, refl, some, ◌≡◌}

finds_owner : search_role "Owner = docs.team x" ≡ some "docs.team"
unfolding search_role is_space is_digit
finds_owner = refl

finds_later_role : search_role "see owners; role:qa" ≡ some "qa"
unfolding search_role is_space is_digit
finds_later_role = refl

needs_a_space : search_role "therole:qa owner=9 role=a!" ≡ none
unfolding search_role is_space is_digit
needs_a_space = refl

title_decides :
    (route_task (λ s. s) "visual regression of the api" "deploy" "").owner_session ≡ "browser-qa"
unfolding route_task explicit_owner_role search_role is_space is_digit first_route any_in any
    contains starts_with
title_decides = refl

explicit_decides : (route_task (λ s. s) "test" "role: security now" "").worker_type ≡ "security"
unfolding route_task explicit_owner_role search_role is_space is_digit is_role role_defaults
explicit_decides = refl
