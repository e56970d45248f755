-- ===== src/Server/Again.antt =====
-- The handlers on a request that is sent again to the machine that it left.
use riquet.Domain.Commands.{set_compatibility, set_mode}
use riquet.Domain.Errors.{Error, Outcome, err, ok, ◌>>=◌}
use riquet.Domain.Execute.{
  Command, deleting_subject, deleting_version, execute, operation_of, plain, setting_compatibility,
  setting_mode,
}
use riquet.Domain.Execute.Retry.{execute_retry}
use riquet.Domain.Json.{Json, int}
use riquet.Domain.Machine.{Hashes, Machine}
use riquet.Domain.Snapshot.{State}
use riquet.Domain.Types.{Result, no_result, valid_level, valid_mode}
use riquet.Prelude.{
  Option, Option-cases, String, ap, arith, false, inl, inr, number_eq, refl, string_eq, sym, true,
  ◌<◌, ◌==◌, ◌^◌, ◌∙◌, ◌≡◌, ◌≢◌,
}
use riquet.Server.{Call, Reply, domain_reply, parse_version_path, query_bool}
use riquet.Server.Refinement.{Checked-cases}
use riquet.Server.Writes.{
  deleted_reply, put_config, put_mode, remove_subject, remove_version, scope_of, setting_of,
  setting_reply, versions_or_null,
}

pub domain_reply-ne : (x : Error) → (domain_reply x).status ≢ 200
unfolding domain_reply
domain_reply-ne x h = ground arith

pub setting_reply-ok :
    (key value : String) (o : Outcome (Unit {0}))
    → (setting_reply key value o).status ≡ 200
    → o ≡ ok tt
unfolding setting_reply
setting_reply-ok key value (err x) h = absurd (domain_reply-ne x h)
setting_reply-ok key value (ok tt) h = refl

pub deleted_reply-ok :
    (show : Result → Json) (o : Outcome Result)
    → (deleted_reply show o).status ≡ 200
    → (r : Result) × (o ≡ ok r)
unfolding deleted_reply
deleted_reply-ok show (err x) h = absurd (domain_reply-ne x h)
deleted_reply-ok show (ok r) h = (r, refl)

plain-ok :
    {L : Type 0} (o : Outcome (Unit {0}) × Machine L) (m : Machine L)
    → plain o ≡ (ok no_result, m)
    → o ≡ (ok tt, m)
plain-ok (err x, left) m h = absurd (cc (ap (λ (p : Outcome Result × Machine _). p.0) h))
plain-ok (ok tt, left) m h = λ i. (ok tt, (h i).1)

module _ {L : Type 0} where
  -- An answer and the machine beside it.
  abbrev pub after_setting : String → String → Outcome (Unit {0}) × Machine L → Reply × Machine L
  after_setting key value o = (setting_reply key value o.0, o.1)

  abbrev after_deletion : (Result → Json) → Outcome Result × Machine L → Reply × Machine L
  after_deletion show o = (deleted_reply show o.0, o.1)

  -- A handler that on its request is another function answers twice alike if that does.
  again-of :
      (f g : Machine L → Reply × Machine L) (m : Machine L)
      → ((x : Machine L) → f x ≡ g x)
      → g (g m).1 ≡ g m
      → f (f m).1 ≡ f m
  again-of f g m same h =
      same (f m).1 ∙ (ap (λ (x : Reply × Machine L). g x.1) (same m) ∙ (h ∙ sym (same m)))

module _ {L : Type 0} (hashes : Hashes) (operation : String) (named : operation ≢ "")
    (m : Machine L) (range : m.state.sequence < 2 ^ 64) where
  -- The answer to a settings command, and to the same command on the machine that it left.
  setting-again :
      (key value : String) (c : Command) (call : Machine L → Outcome (Unit {0}) × Machine L)
      → ((x : Machine L) → execute hashes x c ≡ plain (call x))
      → operation_of c ≡ operation
      → (setting_reply key value (call m).0).status ≡ 200
      → after_setting key value (call (call m).1) ≡ after_setting key value (call m)
  setting-again key value c call calls own h =
      let m' = (call m).1 in
      let good = setting_reply-ok key value (call m).0 h in
      let first : execute hashes m c ≡ (ok no_result, m') =
        calls m ∙ (λ i. (good i >>= λ _. ok no_result, m')) in
      let again = plain-ok (call m') m' (
        sym (calls m')
        ∙ execute_retry hashes m m' c no_result (λ e. named (sym own ∙ e)) range first) in
      ap (after_setting key value) again ∙ (λ i. (setting_reply key value (sym good i), m'))

  deletion-again :
      (show : Result → Json) (c : Command)
      → operation_of c ≡ operation
      → (deleted_reply show (execute hashes m c).0).status ≡ 200
      → after_deletion show (execute hashes (execute hashes m c).1 c)
        ≡ after_deletion show (execute hashes m c)
  deletion-again show c own h =
      let m' = (execute hashes m c).1 in
      let (r, good) = deleted_reply-ok show (execute hashes m c).0 h in
      let again =
        execute_retry hashes m m' c r (λ e. named (sym own ∙ e)) range (λ i. (good i, m')) in
      ap (after_deletion show) again ∙ (λ i. (deleted_reply show (sym good i), m'))

  module _ (c : Call) where
    abbrev pub Alike : (Machine L → Reply × Machine L) → Type 0
    Alike f = (f m).0.status ≡ 200 → f (f m).1 ≡ f m

    pub put_config-again :
        (subject : Option String) → Alike (λ x. put_config hashes operation x c subject)
    unfolding put_config execute
    put_config-again subject h = elim (Option-cases (setting_of "compatibility" valid_level c)) [
      | inl bad ↦ absurd (ground (arith, bad))
      | inr (level, good) ↦
          let call =
            λ (x : Machine L). set_compatibility hashes x operation (scope_of subject) level in
          again-of (λ x. put_config hashes operation x c subject)
            (λ x. after_setting "compatibility" level (call x)) m (λ x. rw (good, put_config) refl)
            (setting-again "compatibility" level
              (setting_compatibility operation (scope_of subject) level) call (λ x. refl) refl
              (rw (good, put_config) at h))
    ]

    pub put_mode-again :
        (subject : Option String) → Alike (λ x. put_mode hashes operation x c subject)
    unfolding put_mode execute
    put_mode-again subject h = elim (Option-cases (setting_of "mode" valid_mode c)) [
      | inl bad ↦ absurd (ground (arith, bad))
      | inr (mode, good) ↦
          let call = λ (x : Machine L). set_mode hashes x operation (scope_of subject) mode in
          again-of (λ x. put_mode hashes operation x c subject)
            (λ x. after_setting "mode" mode (call x)) m (λ x. rw (good, put_mode) refl)
            (setting-again "mode" mode (setting_mode operation (scope_of subject) mode) call
              (λ x. refl) refl (rw (good, put_mode) at h))
    ]

    pub remove_subject-again :
        (subject : String) → Alike (λ x. remove_subject hashes operation x c subject)
    unfolding remove_subject execute
    remove_subject-again subject h =
        deletion-again (λ r. versions_or_null r.versions)
          (deleting_subject (record {
            operation_id = operation;
            subject = subject;
            permanent = query_bool c "permanent";
          }))
          refl h

    -- A version that is written as a number is the same in every state.
    numbered-version :
        (x : State) (subject value : String)
        → (value == "latest") ≡ false
        → parse_version_path x subject value true ≡ parse_version_path m.state subject value true
    unfolding parse_version_path
    numbered-version x subject value number = rw number refl

    pub remove_version-again :
        (subject value : String)
        → (value == "latest") ≡ false
        → Alike (λ x. remove_version hashes operation x c subject value)
    unfolding remove_version execute
    remove_version-again subject value number h =
        elim (Checked-cases (parse_version_path m.state subject value true)) [
          | inl (reply, bad) ↦
              again-of (λ x. remove_version hashes operation x c subject value) (λ x. (reply, x)) m
                (λ x. rw (numbered-version x.state subject value number ∙ bad, remove_version) refl)
                refl
          | inr (version, good) ↦
              let command : Command = deleting_version (record {
                operation_id = operation;
                subject = subject;
                version = version;
                permanent = query_bool c "permanent";
              }) in
              again-of (λ x. remove_version hashes operation x c subject value)
                (λ x. after_deletion (λ r. int r.version) (execute hashes x command)) m
                (λ x.
                  rw (numbered-version x.state subject value number ∙ good, remove_version) refl)
                (deletion-again (λ r. int r.version) command refl (rw (good, remove_version) at h))
        ]
