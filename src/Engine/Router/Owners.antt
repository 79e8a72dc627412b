-- ===== src/Engine/Router/Owners.antt =====
-- The owner roles that qingtian_engine/router.py may choose.
use qingtian_ai.Engine.Router.{
  Route, explicit_owner_role, first_route, is_role, matching_routes, new_matches, or_route,
  route_task, routes, search_role, valid_role,
}
use qingtian_ai.Engine.Texts.{any_in, spaced}
use qingtian_ai.Prelude.{
  All, Bool, Bool-cases, List, Option, String, [], any, arith, eq_iff, eq_self, false,
  if◌then◌else◌, inl, inr, is_digit, none, not, not-both, not-true, refl, some, subst, true, ◌&&◌,
  ◌==◌, ◌∷◌, ◌≡◌,
}

routes-IsRole : All (λ x. is_role x.1.owner_session ≡ true) routes
unfolding is_role is_digit
routes-IsRole = (refl, (refl, (refl, (refl, (refl, (refl, (refl, (refl, tt))))))))

module _ (lower : String → String) where
  valid_role-IsRole :
      (o : Option String)
      → not (valid_role lower o == "") ≡ true
      → is_role (valid_role lower o) ≡ true
  valid_role-IsRole none h = cc
  valid_role-IsRole (some role) h = elim (Bool-cases (is_role (lower role))) [
    | inl b ↦ rw b b
    | inr b ↦ absurd (
        not-both (not-true _ (subst (λ b. not ((if b then lower role else "") == "") ≡ true) b h))
          (eq_self ""))
  ]

  first_route-IsRole :
      (haystack : String) (rs : List (List String × Route)) (r : Route)
      → All (λ x. is_role x.1.owner_session ≡ true) rs
      → is_role r.owner_session ≡ true
      → is_role (or_route lower (first_route lower haystack rs) r).owner_session ≡ true
  unfolding first_route
  first_route-IsRole haystack [] r h k = k
  first_route-IsRole haystack (x ∷ rs) r h k = elim (Bool-cases (any_in x.0 haystack)) [
    | inl b ↦ rw b h.0
    | inr b ↦ rw b (first_route-IsRole haystack rs r h.1 k)
  ]

  -- Whatever the texts of a task and the lower-casing, the owner that `route_task` chooses has the
  -- form of a role.
  pub route_task-IsRole :
      (title scope_summary repository : String)
      → is_role (route_task lower title scope_summary repository).owner_session ≡ true
  unfolding route_task explicit_owner_role is_role
  route_task-IsRole title scope_summary repository =
      elim (Bool-cases (not (explicit_owner_role lower scope_summary == ""))) [
        | inl b ↦ rw b (valid_role-IsRole (search_role scope_summary) b)
        | inr b ↦ rw b (
            first_route-IsRole _ routes _ routes-IsRole
              (first_route-IsRole _ routes _ routes-IsRole refl))
      ]

  owned : String → Route → Bool
  owned owner r = r.owner_session == owner

  matched : String → String → List String × Route → Bool
  matched haystack owner x = any_in x.0 haystack && x.1.owner_session == owner

  new_matches-owner :
      (haystack owner : String) (seen : List String) (rs : List (List String × Route))
      → any (owned owner) (new_matches lower haystack seen rs)
        ≡ (not (any (λ o. o == owner) seen) && any (matched haystack owner) rs)
  unfolding new_matches any owned matched
  new_matches-owner haystack owner seen [] = ground arith
  new_matches-owner haystack owner seen (x ∷ rs) = ground (
    arith,
    new_matches-owner haystack owner (x.1.owner_session ∷ seen) rs,
    new_matches-owner haystack owner seen rs,
    eq_iff x.1.owner_session owner,
  )

  abbrev pub NoRepeats : List Route → Type 0
  NoRepeats [] = Unit
  NoRepeats (r ∷ rs) = (any (λ x. x.owner_session == r.owner_session) rs ≡ false) × NoRepeats rs

  new_matches-NoRepeats :
      (haystack : String) (seen : List String) (rs : List (List String × Route))
      → NoRepeats (new_matches lower haystack seen rs)
  unfolding new_matches any owned
  new_matches-NoRepeats haystack seen [] = tt
  new_matches-NoRepeats haystack seen (x ∷ rs) =
      elim (Bool-cases (any_in x.0 haystack && not (any (λ o. o == x.1.owner_session) seen))) [
        | inl b ↦ rw b (
          ground (
            arith,
            new_matches-owner haystack x.1.owner_session (x.1.owner_session ∷ seen) rs,
            eq_self x.1.owner_session,
          ),
          new_matches-NoRepeats haystack (x.1.owner_session ∷ seen) rs,
        )
        | inr b ↦ rw b (new_matches-NoRepeats haystack seen rs)
      ]

  -- Without an explicit role, the owners of `matching_routes` are, each of them once, exactly those
  -- of the rows of ROUTES that have a keyword in the lowered title, scope and repository.
  pub matching_routes-owner :
      (title scope_summary repository owner : String)
      → (explicit_owner_role lower scope_summary == "") ≡ true
      → NoRepeats (matching_routes lower title scope_summary repository)
        × (any
              (λ r. r.owner_session == owner)
              (matching_routes lower title scope_summary repository)
            ≡ any
                (λ x.
                  any_in x.0 (lower (spaced (title ∷ scope_summary ∷ repository ∷ [])))
                  && x.1.owner_session == owner)
                routes)
  unfolding matching_routes owned matched any
  matching_routes-owner title scope_summary repository owner h =
      rw h (new_matches-NoRepeats _ [] routes, new_matches-owner _ owner [] routes)
