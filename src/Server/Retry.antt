-- ===== src/Server/Retry.antt =====
-- Requests that are sent again under their X-Request-ID.
use riquet.Domain.Commands.{delete_compatibility}
use riquet.Domain.Execute.Settings.{delete_compatibility-subject_compatibility}
use riquet.Domain.Machine.{Hashes, Machine, replayed}
use riquet.Domain.Queries.{subject_compatibility}
use riquet.Prelude.{
  Bool, Bool-cases, Option-cases, String, ap, arith, eq_iff, false, inl, inr, none, not, number_eq,
  refl, string_eq, sym, true, ◌<◌, ◌==◌, ◌^◌, ◌∙◌, ◌≡◌, ◌≢◌,
}
use riquet.Server.{Arrival, Call, Reply, accepted, error_reply, operation_id}
use riquet.Server.Again.{
  after_setting, put_config-again, put_mode-again, remove_subject-again, remove_version-again,
  setting_reply-ok,
}
use riquet.Server.Routes.{
  Route, Server, drop_subject, drop_version, handle, route, serve, set_config, set_mode_of,
}
use riquet.Server.Writes.{remove_config}

-- The handlers whose command a request fixes by itself, but for register, whose command has the
-- time.
abbrev pub is_repeatable : Route → Bool
is_repeatable (set_config subject) = true
is_repeatable (set_mode_of subject) = true
is_repeatable (drop_subject subject) = true
is_repeatable (drop_version subject value) = not (value == "latest")
is_repeatable _ = false

named-operation :
    (around : Arrival) (c : Call) → c.request_id ≢ "" → operation_id around c ≡ c.request_id
unfolding operation_id
named-operation around c named = elim (Bool-cases (c.request_id == "")) [
  | inl e ↦ absurd (named ((eq_iff c.request_id "").0 e))
  | inr e ↦ rw e refl
]

module _ {L N : Type 0} (hashes : Hashes) (server : Server N) where
  handle-again :
      (around again : Arrival) (operation : String) (m : Machine L) (c : Call) (r : Route)
      → operation ≢ ""
      → m.state.sequence < 2 ^ 64
      → is_repeatable r ≡ true
      → (handle hashes server around operation m c r).0.status ≡ 200
      → handle hashes server again operation (handle hashes server around operation m c r).1 c r
        ≡ handle hashes server around operation m c r
  unfolding handle
  handle-again around again operation m c (set_config subject) named range repeatable h =
      put_config-again hashes operation named m range c subject h
  handle-again around again operation m c (set_mode_of subject) named range repeatable h =
      put_mode-again hashes operation named m range c subject h
  handle-again around again operation m c (drop_subject subject) named range repeatable h =
      remove_subject-again hashes operation named m range c subject h
  handle-again around again operation m c (drop_version subject value) named range repeatable h =
      remove_version-again hashes operation named m range c subject value (ground arith) h
  handle-again around again operation m c _ named range repeatable h = absurd (cc)

  -- Where the sequence is a uint64: a request with an X-Request-ID that sets a compatibility level
  -- or a mode, or deletes a subject or a version by number, and is answered with 200, gets the same
  -- answer when it is sent again to the machine that it left, and leaves that machine, whatever the
  -- time and the caller's address are then.
  pub serve_retry :
      (around again : Arrival) (m : Machine L) (c : Call) (r : Route)
      → c.request_id ≢ ""
      → m.state.sequence < 2 ^ 64
      → route c.method c.path ≡ accepted r
      → is_repeatable r ≡ true
      → (serve hashes server around m c).0.1.status ≡ 200
      → serve hashes server again (serve hashes server around m c).1 c
        ≡ serve hashes server around m c
  unfolding serve
  serve_retry around again m c r named range found repeatable h =
      let once = λ (a : Arrival) (x : Machine L).
        handle hashes server a c.request_id x (record c { request_id = c.request_id }) r in
      let same : (a : Arrival) (x : Machine L)
          → serve hashes server a x c ≡ ((c.request_id, (once a x).0), (once a x).1) =
        λ a x. rw (found, serve, named-operation a c named) refl in
      let alike =
        handle-again around again c.request_id m _ r named range repeatable
          (ap (λ (o : (String × Reply) × Machine L). o.0.1.status) (sym (same around m)) ∙ h) in
      same again _
      ∙ (ap
            (λ (o : (String × Reply) × Machine L).
              ((c.request_id, (once again o.1).0), (once again o.1).1))
            (same around m)
          ∙ (ap (λ (o : Reply × Machine L). ((c.request_id, o.0), o.1)) alike
              ∙ sym (same around m)))

-- A deletion of a subject's compatibility level that is answered with 200, for an operation not
-- recorded before, is answered with 404 and error code 40408 when it is sent again, under the same
-- operation ID or another, and leaves the machine.
pub remove_config-again :
    {L : Type 0} (hashes : Hashes) (operation again : String) (m : Machine L) (c next : Call)
    (subject : String)
    → replayed m.state operation ≡ none
    → (remove_config hashes operation m c subject).0.status ≡ 200
    → remove_config hashes again (remove_config hashes operation m c subject).1 next subject
      ≡ (error_reply 404 40408, (remove_config hashes operation m c subject).1)
unfolding remove_config
remove_config-again hashes operation again m c next subject fresh h =
    elim (Option-cases (subject_compatibility m.state subject)) [
      | inl bad ↦ absurd (ground (arith, bad))
      | inr (level, good) ↦
          let o = delete_compatibility hashes m operation subject in
          let made : remove_config hashes operation m c subject
              ≡ after_setting "compatibilityLevel" level o =
            rw (good, remove_config) refl in
          let succeeds =
            setting_reply-ok "compatibilityLevel" level o.0
              (ap (λ (x : Reply × Machine _). x.0.status) (sym made) ∙ h) in
          let gone =
            delete_compatibility-subject_compatibility hashes m o.1 operation subject fresh
              (λ i. (succeeds i, o.1)) in
          rw made (rw (gone, remove_config) refl)
    ]
