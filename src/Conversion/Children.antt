-- ===== src/Conversion/Children.antt =====
-- What a request to re-convert costs.
use ebook_automation.Raises.{Result, returned, raised}
use ebook_automation.Crypto.{Crypto}
use ebook_automation.JobStore.Schema.{Job, is_done}
use ebook_automation.JobStore.Store.{get_job, create_job}
use ebook_automation.JobQueue.World.{tokens-log_event, World}
use ebook_automation.JobQueue.Refunds.{IsQuiet}
use ebook_automation.Conversion.Charge.{
  HttpCode, internal_error, Response, accepted, http_error, Env, Charge, charged, refused,
  unavailable, consume_token, precheck_token, status_of, make_directory,
}
use ebook_automation.Conversion.Spending.{consume_by, Charged, consume-Charged}
use ebook_automation.Conversion.Reconvert.{
  Plan, child_dir, child_job, drop_child, finish_child, create_child, after_child_charge,
  stage_child, precheck_child, with_tier, with_parent, reconvert_job, reconvert_tier,
}
use ebook_automation.Common.{
  text_of, String, ◌≡◌, refl, Bool, true, false, not, ◌&&◌, Option, none, some, arith, str_eq,
  if◌then◌else◌,
}

-- Whether an answer means that the token is spent: the child was accepted, or its row could not
-- be created.
abbrev pub is_spent : Response → Bool
is_spent (accepted _) = true
is_spent (http_error _ internal_error) = true
is_spent (http_error _ _) = false

finish_child_lem :
    (env : Env) (p : Plan) (r : Result (Unit {0})) (w : World)
    → (is_spent (finish_child env p r w).0 ≡ true) × ((finish_child env p r w).1.tokens ≡ w.tokens)
unfolding finish_child
finish_child_lem env p (raised e) w = (refl, refl)
finish_child_lem env p (returned _) w = (refl, tokens-log_event env.logs _ w)

create_child_lem :
    (env : Env) (p : Plan) (o : Option String) (w : World)
    → (is_spent (create_child env p o w).0 ≡ true) × ((create_child env p o w).1.tokens ≡ w.tokens)
unfolding create_child
create_child_lem env p o w =
    let (r, jobs) = create_job env.ttl env.now (child_job env p o) w.jobs in
    by_lock env.create_locked (finish_child env p _ w)
      (finish_child env p r (record w { jobs = jobs })) (finish_child_lem env p _ w)
      (finish_child_lem env p r (record w { jobs = jobs }))
  where
    by_lock :
        (b : Bool) (x y : Response × World)
        → (is_spent x.0 ≡ true) × (x.1.tokens ≡ w.tokens)
        → (is_spent y.0 ≡ true) × (y.1.tokens ≡ w.tokens)
        → let z : Response × World = (if b then x else y) in
          (is_spent z.0 ≡ true) × (z.1.tokens ≡ w.tokens)
    by_lock true x y p q = p
    by_lock false x y p q = q

abbrev is_harmless : Option HttpCode → Bool
is_harmless none = true
is_harmless (some code) = not (is_spent (http_error (status_of code) code))

precheck-harmless :
    (env : Env) (o : Option String) (b : Bool) (w : World)
    → is_harmless (if b then precheck_token env o w else none) ≡ true
unfolding precheck_token
precheck-harmless env o false w = refl
precheck-harmless env none true w = refl
precheck-harmless env (some t) true w = ground arith

module _ (c : Crypto) (env : Env) (token : Option String) (w₀ : World) where
  abbrev token_of : String
  token_of = text_of token

  -- the tokens after a request for a child of a tier
  abbrev Fair : Bool → Response × World → Type 0
  Fair premium (r, w) =
      w.tokens ≡ (if premium && is_spent r then (consume_by c env token_of w₀).1 else w₀.tokens)

  if-Fair :
      (p b : Bool) (x y : Response × World) → Fair p x → Fair p y → Fair p (if b then x else y)
  if-Fair p true x y f g = f
  if-Fair p false x y f g = g

  created-Fair :
      (p : Plan) (o : Option String) (b : Bool) (w : World)
      → w.tokens ≡ (if b then (consume_by c env token_of w₀).1 else w₀.tokens)
      → Fair b (create_child env p o w)
  created-Fair p o b w same =
      let (spent, kept) = create_child_lem env p o w in ground (arith, spent, kept, same)

  unspent_same :
      (b : Bool) → w₀.tokens ≡ (if b && false then (consume_by c env token_of w₀).1 else w₀.tokens)
  unspent_same true = refl
  unspent_same false = refl

  module _ (waiting : IsQuiet env.while_waiting) (resuming : IsQuiet env.while_resuming) where
    after_charge-Fair :
        (p : Plan) (x : Charge × World)
        → p.token ≡ token
        → Charged c env token_of w₀ x
        → Fair true (after_child_charge c env p x)
    unfolding after_child_charge
    after_charge-Fair p (charged, w) e (ok, same) = created-Fair p _ true w same
    after_charge-Fair p (refused code, w) e same = same
    after_charge-Fair p (unavailable, w) e same = same

    stage-Fair :
        (p : Plan) → p.token ≡ token → Fair (str_eq p.tier "premium") (stage_child c env p w₀)
    unfolding stage_child
    stage-Fair p e =
        let v = record w₀ { directories = make_directory (child_dir env) w₀.directories } in
        if-Fair (str_eq p.tier "premium") (not env.stages) (_, drop_child env v) _
          (unspent_same (str_eq p.tier "premium")) (by_tier (str_eq p.tier "premium"))
      where
        by_tier :
            (b : Bool)
            → Fair b (
                if b
                then after_child_charge c env p (
                    consume_token c env
                      (text_of p.token)
                      (record w₀ { directories = make_directory (child_dir env) w₀.directories }))
                else create_child env p none
                    (record w₀ { directories = make_directory (child_dir env) w₀.directories }))
        by_tier true = after_charge-Fair p _ e (
            rw e (
              consume-Charged c env (text_of token)
                (record w₀ { directories = make_directory (child_dir env) w₀.directories }) waiting
                resuming))
        by_tier false = created-Fair p none false _ refl

    precheck-Fair :
        (p : Plan) (o : Option HttpCode)
        → p.token ≡ token
        → is_harmless o ≡ true
        → Fair (str_eq p.tier "premium") (precheck_child c env p o w₀)
    unfolding precheck_child
    precheck-Fair p (some code) e h = ground arith
    precheck-Fair p none e h = stage-Fair p e

    with_tier-Fair :
        (id out_lower : String) (parent : Job)
        → Fair
            (str_eq out_lower "kfx")
            (with_tier c env id parent out_lower token (reconvert_tier out_lower) w₀)
    unfolding with_tier reconvert_tier
    with_tier-Fair id out_lower parent =
        by_format (str_eq out_lower "kfx") (str_eq out_lower "mobi")
      where
        plan : String → Plan
        plan tier = record {
          parent_job_id = id;
          parent = parent;
          out_lower = out_lower;
          tier = tier;
          token = token;
        }

        by_format :
            (b m : Bool)
            → Fair b (
                with_tier c env id parent out_lower token
                  (if b then some "premium" else if m then some "free" else none)
                  w₀)
        by_format true m =
            precheck-Fair (plan "premium") _ refl (precheck-harmless env token true w₀)
        by_format false true = precheck-Fair (plan "free") none refl refl
        by_format false false = refl

    with_parent-Fair :
        (id out_lower : String) (o : Option Job)
        → Fair (str_eq out_lower "kfx") (with_parent c env id out_lower token o w₀)
    unfolding with_parent
    with_parent-Fair id out_lower none = unspent_same (str_eq out_lower "kfx")
    with_parent-Fair id out_lower (some parent) =
        let premium = str_eq out_lower "kfx" in
        if-Fair premium (not (is_done parent.status)) (_, w₀) _ (unspent_same premium)
          (if-Fair premium (not (env.exists parent.input_path)) (_, w₀) _ (unspent_same premium)
            (with_tier-Fair id out_lower parent))

    -- A request to re-convert spends the token that was sent with it only for the format KFX and
    -- only if its answer is that the child was accepted, or the uncaught error of a child whose
    -- row could not be created; then the tokens are those that the consume leaves, with no
    -- refund. With every other answer, and for every other format, they are what they were.
    -- Other tasks are assumed to leave the tokens alone meanwhile.
    pub reconvert_charges :
        (parent_job_id out_lower : String)
        → let (r, w) = reconvert_job c env parent_job_id out_lower token w₀ in
          w.tokens ≡ (
            if str_eq out_lower "kfx" && is_spent r
            then (consume_by c env token_of w₀).1
            else w₀.tokens)
    unfolding reconvert_job
    reconvert_charges parent_job_id out_lower =
        with_parent-Fair parent_job_id out_lower (get_job parent_job_id w₀.jobs)
