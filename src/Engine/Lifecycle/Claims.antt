-- ===== src/Engine/Lifecycle/Claims.antt =====
-- The lease of a notification in the outbox of qingtian_engine/lifecycle.py.
use qingtian_ai.Engine.Lifecycle.{
  Database, EngineTask, Host, Notice, engine_task_key, execution_key, handoff_key, intake_key,
  managed_run_key, notice_key, version_key,
}
use qingtian_ai.Engine.Lifecycle.Checks.{identifier, integer_within}
use qingtian_ai.Engine.Lifecycle.Handlers.{owned-found}
use qingtian_ai.Engine.Lifecycle.Outbox.{
  claimed_by_actor, is_claimed, is_delivered, is_leased, notice_of, outbox_claim, update_notice,
}
use qingtian_ai.Engine.Lifecycle.Returned.{some_same}
use qingtian_ai.Exec.{ok}
use qingtian_ai.Exec.Rules.{
  Post, Post-bind, Post-check, Post-fetch_last, Post-lift, Post-modify, Post-pure,
}
use qingtian_ai.Json.{Entries, Value}
use qingtian_ai.Json.Dicts.{get}
use qingtian_ai.Prelude.{
  String, after, ap, arith, false, ltb, not, refl, some, subst, sym, true, ℕ, ◌&&◌, ◌*◌, ◌+◌, ◌<◌,
  ◌||◌, ◌∙◌, ◌≡◌,
}
use qingtian_ai.Store.Table.{find, find-update_self, key-find, update}

module _ (host : Host) where
  -- a claim that `_outbox_claim` has granted
  record Granted (t : EngineTask) (p : Entries) (fresh : String) (now : ℕ) (db db' : Database)
      : Type 0 where
    outbox_id : String
    named : identifier host (get "outbox_id" p) ≡ ok outbox_id
    seconds : ℕ
    leased : integer_within 1 300 (get "lease_seconds" p) ≡ ok seconds
    actor : String
    notice : Notice
    has_notice : find outbox_id db.outbox ≡ some notice
    was_free :
        not (
          is_delivered notice.status
          || is_claimed notice.status && is_leased now notice.lease_until)
        ≡ true
    written :
        db'.outbox
        ≡ update notice.id (claimed_by_actor actor fresh (now + seconds * 1000000)) db.outbox

  Post-outbox_claim :
      (fresh : String) (t : EngineTask) (p : Entries) (now : ℕ) (db : Database)
      → Post (outbox_claim host fresh t p now) db (λ _ db'. Granted t p fresh now db db')
  unfolding outbox_claim notice_of update_notice
  Post-outbox_claim fresh t p now db = Post-lift _ _ λ _ _. Post-lift _ _ λ _ _.
      Post-lift _ _ λ seconds leased. Post-bind _ _ (
        Post-lift _ _ λ id named. Post-fetch_last _ _ λ n found_one. Post-check _ _ _ λ free.
          Post-lift _ _ λ actor _. Post-modify _ _ (
            Post-pure _ _ (record {
              outbox_id = id;
              named = named;
              seconds = seconds;
              leased = leased;
              actor = actor;
              notice = n;
              has_notice =
                  (owned-found (λ (m : Notice). m.task_id) t.id (find id db.outbox) found_one).0;
              was_free = free;
              written = refl;
            })))

  ok_equal : {A : Type 0} {a b : A} → ok a ≡ ok b → a ≡ b
  ok_equal h = cc

  taken : (now until : ℕ) → now < until → not (false || true && ltb now until) ≡ true → ⊥
  taken now until less h = ground arith

  -- While the lease of a claimed notification has not run out, no one claims it: of two calls of
  -- `_outbox_claim` that name the same notification, if the first returns and the second comes
  -- before the end of the lease, the second does not return.
  pub claim_exclusive :
      (fresh fresh' : String) (t t' : EngineTask) (p p' : Entries) (now now' seconds : ℕ)
      (db db' after : Database) (v v' : Value)
      → outbox_claim host fresh t p now db ≡ (ok v, db')
      → get "outbox_id" p' ≡ get "outbox_id" p
      → integer_within 1 300 (get "lease_seconds" p) ≡ ok seconds
      → now' < now + seconds * 1000000
      → ¬ (outbox_claim host fresh' t' p' now' db' ≡ (ok v', after))
  unfolding is_delivered is_claimed is_leased
  claim_exclusive fresh fresh' t t' p p' now now' seconds db db' after v v' first_ran same lease
        soon second_ran =
      let a = (Post-outbox_claim fresh t p now db).at v db' first_ran in
      let b = (Post-outbox_claim fresh' t' p' now' db').at v' after second_ran in
      let one_id : b.outbox_id ≡ a.outbox_id =
        ok_equal (sym b.named ∙ ap (identifier host) same ∙ a.named) in
      let one_lease : a.seconds ≡ seconds = ok_equal (sym a.leased ∙ lease) in
      let until = now + a.seconds * 1000000 in
      let key_is = key-find db.outbox a.outbox_id a.has_notice in
      let stored =
        find-update_self a.notice.id (claimed_by_actor a.actor fresh until) db.outbox (λ x. refl)
          (subst (λ i. find i db.outbox ≡ some a.notice) (sym key_is) a.has_notice) in
      let row : b.notice ≡ claimed_by_actor a.actor fresh until a.notice = some_same (
        sym b.has_notice
        ∙ ap (λ i. find i db'.outbox) (one_id ∙ sym key_is)
        ∙ ap (find a.notice.id) a.written
        ∙ stored) in
      taken now' until (subst (λ s. now' < now + s * 1000000) (sym one_lease) soon) (
        subst
          (λ (n : Notice).
            not (is_delivered n.status || is_claimed n.status && is_leased now' n.lease_until)
            ≡ true)
          row b.was_free)
