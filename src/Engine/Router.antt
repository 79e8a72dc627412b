-- ===== src/Engine/Router.antt =====
-- qingtian_engine/router.py: the worker profile and the owner role of a task. `lower` is str.lower.
pub mod Owners
pub mod Examples
use mathlib.Core.Option
use Prim.Native.Char.{code}
use qingtian_ai.Engine.Texts.{any_in, spaced}
use qingtian_ai.Prelude.{
  Bool, List, Option, String, [], any, false, if◌then◌else◌, is_digit, is_space, leb, nat_eq, none,
  not, some, suc, true, zero, ℕ, ◌&&◌, ◌+◌, ◌==◌, ◌||◌, ◌∷◌,
}
use qingtian_ai.Store.Methods.Runs.{added}

pub record Route : Type 0 where
  pub worker_type : String
  pub owner_session : String
  pub reasoning : String
  pub reason : String

abbrev pub route : String → String → String → String → Route
route worker_type owner_session reasoning reason = record {
  worker_type = worker_type;
  owner_session = owner_session;
  reasoning = reasoning;
  reason = reason;
}

-- ROUTES, without the names of its rows
abbrev pub routes : List (List String × Route)
routes =
    (
      "security" ∷ "permission" ∷ "allowlist" ∷ "threat model" ∷ "安全" ∷ "权限" ∷ [],
      route "security" "security" "xhigh" "security or access-control work",
    )
    ∷ (
      "deploy" ∷ "deployment" ∷ "infrastructure" ∷ "container" ∷ "ci pipeline" ∷ "environment"
          ∷ "部署" ∷ "运维" ∷ "环境" ∷ [],
      route "infra" "infrastructure" "xhigh" "infrastructure or deployment work",
    )
    ∷ (
      "browser" ∷ "playwright" ∷ "screenshot" ∷ "visual regression" ∷ "accessibility" ∷ "浏览器"
          ∷ "视觉回归" ∷ "截图" ∷ [],
      route "browser" "browser-qa" "high" "browser or visual verification",
    )
    ∷ (
      "test" ∷ "verify" ∷ "regression" ∷ "smoke" ∷ "acceptance" ∷ "测试" ∷ "回归" ∷ "验收" ∷ "冒烟" ∷ [],
      route "qa" "qa" "high" "software verification work",
    )
    ∷ (
      "react native" ∷ "expo" ∷ "android" ∷ "ios" ∷ "mobile" ∷ "移动端" ∷ [],
      route "cli" "mobile" "high" "mobile application work",
    )
    ∷ (
      "backend" ∷ "api" ∷ "server" ∷ "database" ∷ "migration" ∷ "后端" ∷ "接口" ∷ "数据库" ∷ [],
      route "cli" "backend" "xhigh" "backend or data-layer work",
    )
    ∷ (
      "frontend" ∷ "web" ∷ "component" ∷ "stylesheet" ∷ "responsive" ∷ "前端" ∷ "网页" ∷ "组件" ∷ "响应式"
          ∷ [],
      route "cli" "frontend" "high" "frontend application work",
    )
    ∷ (
      "documentation" ∷ "readme" ∷ "runbook" ∷ "tutorial" ∷ "文档" ∷ "说明书" ∷ [],
      route "cli" "documentation" "high" "documentation work",
    )
    ∷ []

-- ROLE_DEFAULTS.get(role, ("cli", "high"))
unfoldable pub role_defaults : String → String × String
role_defaults role =
    if role == "security"
    then ("security", "xhigh")
    else if role == "infrastructure"
    then ("infra", "xhigh")
    else if role == "browser-qa"
    then ("browser", "high")
    else if role == "qa"
    then ("qa", "high")
    else ("cli", "high")

abbrev is_lower : ℕ → Bool
is_lower c = leb b'a' c && leb c b'z'

-- [a-z0-9._-]
abbrev is_role_char : ℕ → Bool
is_role_char c = is_lower c || is_digit c || nat_eq c b'.' || nat_eq c b'_' || nat_eq c b'-'

abbrev role_rest : ℕ → String → Bool
role_rest n String.[] = true
role_rest zero (String.◌∷◌ c s) = false
role_rest (suc n) (String.◌∷◌ c s) = is_role_char (code c) && role_rest n s

-- ROLE_PATTERN.fullmatch: a letter and at most 63 more characters
unfoldable pub is_role : String → Bool
is_role String.[] = false
is_role (String.◌∷◌ c s) = is_lower (code c) && role_rest 63 s

-- [a-z] under re.I: the letters of both cases, and the four characters that fold to them
folds_lower : ℕ → Bool
folds_lower c =
    is_lower c
    || leb b'A' c && leb c b'Z'
    || nat_eq c 0x130
    || nat_eq c 0x131
    || nat_eq c 0x17f
    || nat_eq c 0x212a

folds_role_char : ℕ → Bool
unfolding folds_lower
folds_role_char c = folds_lower c || is_role_char c

-- a word under re.I, of a word in lowercase whose letters fold from ASCII alone; what follows it
after_word : String → String → Option String
after_word String.[] text = some text
after_word (String.◌∷◌ w ws) String.[] = none
after_word (String.◌∷◌ w ws) (String.◌∷◌ c cs) =
    let rest = after_word ws cs in
    if nat_eq (code c) (code w) || nat_eq (code c + 0x20) (code w) then rest else none

skip_spaces : String → String
skip_spaces String.[] = String.[]
skip_spaces (String.◌∷◌ c s) =
    let rest = skip_spaces s in if is_space (code c) then rest else String.◌∷◌ c s

-- at most n role characters, and then a space or the end
role_text : ℕ → String → Option String
unfolding folds_role_char
role_text n String.[] = some String.[]
role_text zero (String.◌∷◌ c s) = if is_space (code c) then some String.[] else none
role_text (suc n) (String.◌∷◌ c s) =
    let rest = role_text n s in
    if is_space (code c)
    then some String.[]
    else if folds_role_char (code c)
    then Option.map (String.◌∷◌ c) rest
    else none

role_head : String → Option String
unfolding folds_lower role_text
role_head String.[] = none
role_head (String.◌∷◌ c s) =
    if folds_lower (code c) then Option.map (String.◌∷◌ c) (role_text 63 s) else none

assigned : Option String → Option String
unfolding role_head skip_spaces
assigned none = none
assigned (some rest) = separated (skip_spaces rest)
  where
    separated : String → Option String
    separated String.[] = none
    separated (String.◌∷◌ c s) =
        if nat_eq (code c) b':' || nat_eq (code c) b'=' then role_head (skip_spaces s) else none

or_found : Option String → Option String → Option String
or_found (some a) b = some a
or_found none b = b

-- (?:owner|role)\s*[:=]\s*([a-z][a-z0-9._-]{0,63})(?:\s|$) at the head of a text
role_here : String → Option String
unfolding assigned after_word or_found
role_here s = or_found (assigned (after_word "owner" s)) (assigned (after_word "role" s))

role_after_space : String → Option String
unfolding role_here
role_after_space String.[] = none
role_after_space (String.◌∷◌ c s) =
    let later = role_after_space s in
    if is_space (code c) then or_found (role_here s) later else later

-- EXPLICIT_ROLE_PATTERN.search, and its first group
unfoldable pub search_role : String → Option String
unfolding role_here role_after_space or_found
search_role s = or_found (role_here s) (role_after_space s)

module _ (lower : String → String) where
  abbrev pub valid_role : Option String → String
  valid_role none = ""
  valid_role (some role) = if is_role (lower role) then lower role else ""

  unfoldable pub explicit_owner_role : String → String
  explicit_owner_role scope_summary = valid_role (search_role scope_summary)

  unfoldable pub first_route : String → List (List String × Route) → Option Route
  first_route haystack [] = none
  first_route haystack ((keywords, r) ∷ rest) =
      if any_in keywords haystack then some r else first_route haystack rest

  abbrev pub or_route : Option Route → Route → Route
  or_route (some r) s = r
  or_route none s = s

  unfoldable pub route_task : String → String → String → Route
  route_task title scope_summary repository =
      let explicit = explicit_owner_role scope_summary in
      if not (explicit == "")
      then route (role_defaults explicit).0 explicit (role_defaults explicit).1
          "explicit owner role"
      else or_route (first_route (lower title) routes) (
          or_route (first_route (lower (spaced (scope_summary ∷ repository ∷ []))) routes)
            (route "cli" "coordinator" "high" "default coordination route"))

  -- the loop of `matching_routes`, with the owners that it has seen
  unfoldable pub new_matches : String → List String → List (List String × Route) → List Route
  new_matches haystack owners [] = []
  new_matches haystack owners ((keywords, r) ∷ rest) =
      let added = new_matches haystack (r.owner_session ∷ owners) rest in
      let kept = new_matches haystack owners rest in
      if any_in keywords haystack && not (any (λ o. o == r.owner_session) owners)
      then r ∷ added
      else kept

  unfoldable pub matching_routes : String → String → String → List Route
  matching_routes title scope_summary repository =
      if not (explicit_owner_role scope_summary == "")
      then route_task title scope_summary repository ∷ []
      else new_matches (lower (spaced (title ∷ scope_summary ∷ repository ∷ []))) [] routes
